-- ===== src/Profile/Loader/Index.antt =====
-- internal/profile/loader.go: the map and the names that the loop of `LoadDirectory` keeps.
use oryxos_go.Common.{
  Distinct, ◌≡◌, refl, sym, ◌∙◌, ◌≢◌, arith, String, none, some, List, [], ◌∷◌, ◌++◌, length,
  length-append, All, All-append, All-split, lookup, insert, lookup-insert, lookup-insert_ne,
}
use oryxos_go.Profile.{Profile}
use oryxos_go.Profile.Validate.Valid.{IsValid}
use oryxos_go.Profile.Registry.{key_count}

module _ (declared : List String) where
  -- `profiles` has a valid profile under each of `names`, which are distinct, and under no other.
  pub record IsIndex (profiles : List (String × Profile)) (names : List String) : Type 0 where
    pub distinct : Distinct names
    pub bound :
        All
          (λ (name : String).
            (p : Profile) × (lookup name profiles ≡ some p) × (p.name ≡ name) × IsValid declared p)
          names
    pub others :
        (name : String) → All (λ (n : String). n ≢ name) names → lookup name profiles ≡ none
    pub count : key_count profiles ≡ length names

  Distinct-append :
      (y : String) (xs : List String)
      → Distinct xs
      → All (λ (x : String). x ≢ y) xs
      → Distinct (xs ++ y ∷ [])
  Distinct-append y [] d h = (tt, tt)
  Distinct-append y (x ∷ xs) d h = (
    All-append (λ (z : String). z ≢ x) xs (y ∷ []) d.0 ((λ e. h.0 (sym e)), tt),
    Distinct-append y xs d.1 h.1,
  )

  -- A name that the map does not have is not among the names.
  absent :
      (profiles : List (String × Profile)) (name : String) (names : List String)
      → All
          (λ (n : String).
            (p : Profile) × (lookup n profiles ≡ some p) × (p.name ≡ n) × IsValid declared p)
          names
      → lookup name profiles ≡ none
      → All (λ (n : String). n ≢ name) names
  absent profiles name [] h missing = tt
  absent profiles name (n ∷ names) ((p, found, named, valid), h) missing = (
    (λ e. let here : lookup n profiles ≡ none = rw e missing in cc (found, here)),
    absent profiles name names h missing,
  )

  -- A new name does not change what the others have.
  keep :
      (profiles : List (String × Profile)) (new : String) (q : Profile) (names : List String)
      → All
          (λ (n : String).
            (p : Profile) × (lookup n profiles ≡ some p) × (p.name ≡ n) × IsValid declared p)
          names
      → All (λ (n : String). n ≢ new) names
      → All
          (λ (n : String).
            (p : Profile) × (lookup n (insert new q profiles) ≡ some p)
            × (p.name ≡ n)
            × IsValid declared p)
          names
  keep profiles new q [] h apart = tt
  keep profiles new q (n ∷ names) ((p, found, named, valid), h) (differs, apart) = (
    (p, lookup-insert_ne q profiles (λ e. differs (sym e)) ∙ found, named, valid),
    keep profiles new q names h apart,
  )

  pub empty-IsIndex : IsIndex [] []
  unfolding key_count
  empty-IsIndex = record { distinct = tt; bound = tt; others = λ name h. refl; count = refl }

  pub insert-IsIndex :
      (profiles : List (String × Profile)) (names : List String) (p : Profile)
      → IsIndex profiles names
      → IsValid declared p
      → lookup p.name profiles ≡ none
      → IsIndex (insert p.name p profiles) (names ++ p.name ∷ [])
  unfolding key_count
  insert-IsIndex profiles names p index valid missing =
      let apart = absent profiles p.name names index.bound missing in
      record {
        distinct = Distinct-append p.name names index.distinct apart;
        bound =
            All-append _ names (p.name ∷ []) (keep profiles p.name p names index.bound apart)
              ((p, lookup-insert p.name p profiles, refl, valid), tt);
        others = λ name h.
            let (old, new) = All-split _ names (p.name ∷ []) h in
            lookup-insert_ne p profiles new.0 ∙ index.others name old;
        count = rw missing (omega (arith, index.count, length-append names (p.name ∷ [])));
      }
