-- ===== src/App/Ends.antt =====
-- internal/app/application.go: a run ends once the signal comes.
use oryxos_go.Common.{
  Bool, false, ◌≤◌, ◌+◌, ◌==◌, ◌||◌, length, is_some, ℕ, zero, suc, ◌<◌, ◌≡◌, ◌⊎◌, inl, inr, arith,
  ap, String, Option, none, some, List, [], ◌∷◌, true, Option-cases, Bool-cases, refl, ap,
}
use oryxos_go.Go.Error.{Error, Sentinel, is}
use oryxos_go.Go.Effect.{Context}
use oryxos_go.App.{
  start_trigger, shutdown, Component, reported, closed, done, Application, Lifecycle, ready,
  triggered, shutdown, wait_for, serve, start_from, stopped, run_application, without, sources_from,
  is_some,
}

-- Whether the channel of that index is among those that are read.
abbrev pub offered : ℕ → List (ℕ × String) → Bool
offered index [] = false
offered index (source ∷ sources) = source.0 == index || offered index sources

module _ {W : Type 0} (application : Application W) (patience : W → ℕ) where
  -- What a selection of the world does: it chooses the end of the root context; a channel gives a value,
  -- and `patience` goes down; or one of the channels that are read is closed, and `patience` stays or
  -- goes down.
  abbrev pub Patient : Type 0
  Patient =
      (sources : List (ℕ × String)) (w : W)
      → ((application.select sources w).0 ≡ done)
        ⊎ (((index : ℕ) × (failed : Option Error) × ((application.select sources w).0
                ≡ reported index failed)
              × (patience ((application.select sources w).1) < patience w))
            ⊎ ((index : ℕ) × ((application.select sources w).0 ≡ closed index)
                × (offered index sources ≡ true)
                × (patience ((application.select sources w).1) ≤ patience w)))

length_le-without :
    (index : ℕ) (sources : List (ℕ × String)) → length (without index sources) ≤ length sources
unfolding without
length_le-without index [] = omega arith
length_le-without index (source ∷ sources) = ground (arith, length_le-without index sources)

length-without :
    (index : ℕ) (sources : List (ℕ × String))
    → offered index sources ≡ true
    → length (without index sources) < length sources
unfolding without
length-without index [] h = cc
length-without index (source ∷ sources) h = elim (Bool-cases (source.0 == index)) [
  | inl same ↦ rw (same, without) (ground (arith, length_le-without index sources))
  | inr other ↦ rw (other, without) (ground (arith, length-without index sources (rw other at h)))
]

module _ {W : Type 0} (application : Application W) (patience : W → ℕ)
    (patient : Patient application patience) where
  wait_for-ends :
      (n : ℕ) (sources open_sources : List (ℕ × String)) (w : W)
      → patience w + length open_sources < n
      → (trigger : Option Error) × ((wait_for application n sources open_sources w).0
          ≡ triggered trigger)
  unfolding wait_for
  wait_for-ends zero sources open_sources w h = absurd (omega (arith, h))
  wait_for-ends (suc n) sources open_sources w h = elim (patient open_sources w) [
    | inl eq ↦ (none, rw (eq, wait_for) refl)
    | inr (inl (index, none, eq, less)) ↦
        rw (eq, wait_for) (wait_for-ends n sources open_sources _ (omega (arith, h, less)))
    | inr (inl (index, some e, eq, less)) ↦ elim (Bool-cases (is e Sentinel.server_closed)) [
      | inl same ↦
          rw (eq, same, wait_for) (wait_for-ends n sources open_sources _ (omega (arith, h, less)))
      | inr other ↦ rw (eq, other, wait_for) (_, refl)
    ]
    | inr (inr (index, eq, there, less)) ↦
        rw (eq, wait_for)
          (wait_for-ends n sources (without index open_sources) _
            (omega (arith, h, less, length-without index open_sources there)))
  ]

  Ended : (ℕ → Option (Option Error × Lifecycle W × W)) → Type 0
  Ended run = (n : ℕ) × (out : Option Error × Lifecycle W × W) × (run n ≡ some out)

  serve-ends : (lifecycle : Lifecycle W) (w : W) → Ended (λ n. serve application n lifecycle w)
  unfolding serve Ended
  serve-ends lifecycle w =
      let sources = sources_from 0 application.components in
      let w1 = ready application.set_ready true w in
      let (trigger, eq) =
        wait_for-ends (suc (patience w1 + length sources)) sources sources w1 (omega arith) in
      (
        suc (patience w1 + length sources),
        shutdown application lifecycle trigger (
            application.stop
              ((wait_for application (suc (patience w1 + length sources)) sources sources w1).1)),
        rw (eq, serve) refl,
      )

  start_from-ends :
      (root : Context W) (index : ℕ) (components : List (Option (Component W)))
      (lifecycle : Lifecycle W) (w : W)
      → Ended (λ n. start_from application n root index components lifecycle w)
  unfolding start_from Ended
  start_from-ends root index [] lifecycle w = serve-ends lifecycle w
  start_from-ends root index (none ∷ components) lifecycle w = (0, _, refl)
  start_from-ends root index (some c ∷ components) lifecycle w =
      elim (Option-cases ((c.start root w).0)) [
        | inl eq ↦
            let (n, out, ran) =
              start_from-ends root (suc index) components
                (record lifecycle { started = c ∷ lifecycle.started }) ((c.start root w).1) in
            (n, out, rw (eq, start_from) ran)
        | inr (e, eq) ↦ (
          0,
          shutdown application lifecycle
              (start_trigger (is_some (root.cancelled ((c.start root w).1))) index c.type_name e)
              (application.stop ((c.start root w).1)),
          rw (eq, start_from) refl,
        )
      ]

-- Where the calls of the components and of the environment return, and every selection either chooses
-- the end of the root context, or gives a value of a channel and lowers a number that the state of the
-- world gives, or tells that one of the channels that are still read is closed and does not raise that
-- number, some number of selections is enough for the whole run: it ends with a result.
pub run_application-ends :
    {W : Type 0} (application : Application W) (patience : W → ℕ)
    → Patient application patience
    → (parent : Context W) (lifecycle : Lifecycle W) (w : W)
    → (n : ℕ) × (out : Option Error × Lifecycle W × W) × (run_application application n parent
          lifecycle w
        ≡ some out)
unfolding run_application Ended
run_application-ends {W = W} application patience patient parent lifecycle w =
    let (n, out, ran) =
      start_from-ends application patience patient (application.signal_context parent) 0
        application.components lifecycle w in
    (n, _, ap (stopped application) ran)
