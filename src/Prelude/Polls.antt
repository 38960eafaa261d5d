-- ===== src/Prelude/Polls.antt =====
-- `Poll<Result<A, E>>` and `SeekFrom`, and loops that are run in rounds.
use Prim.Native.Nat.{ℕ, zero, suc, ◌<◌}
use mathlib.Core.Path.{◌≡◌, refl, subst}
use mathlib.Core.Logic.{◌⊎◌, inl, inr}
use mathlib.Core.Option.{Option, none, some}
use native.Mathlib.Omega.{arith}

pub data Poll (A E : Type 0) : Type 0 where
  ready : A → Poll A E
  failed : E → Poll A E
  pending : Poll A E

pub Poll-cases :
    {A E : Type 0} (p : Poll A E)
    → ((a : A) × (p ≡ ready a)) ⊎ (((e : E) × (p ≡ failed e)) ⊎ (p ≡ pending))
Poll-cases (ready a) = inl (a, refl)
Poll-cases (failed e) = inr (inl (e, refl))
Poll-cases pending = inr (inr refl)

-- An `i64` offset is its size and its sign.
pub data SeekFrom : Type 0 where
  from_start from_end from_end_back from_current from_current_back : ℕ → SeekFrom

-- One round of a `loop` ends it, or goes on with the state.
pub data Round (S R : Type 0) : Type 0 where
  again : S → Round S R
  done : S → R → Round S R

Round-cases :
    {S R : Type 0} (t : Round S R) → ((s : S) × (t ≡ again s)) ⊎ ((p : S × R) × (t ≡ done p.0 p.1))
Round-cases (again s) = inl (s, refl)
Round-cases (done s r) = inr ((s, r), refl)

-- `none` is more rounds than the fuel.
unfoldable pub run_rounds : {S R : Type 0} → ℕ → (S → Round S R) → S → Option (S × R)
run_rounds zero round s = none
run_rounds (suc fuel) round s = elim (round s) [
  | again s' ↦ run_rounds fuel round s'
  | done s' r ↦ some (s', r)
]

-- What the next round of a loop must give: its end as `Q` asks, or a state as `P` asks and nearer to the
-- end.
abbrev pub Proceeds :
    {S R : Type 0} → (S → Type 0) → (S → R → Type 0) → (S → ℕ) → ℕ → Round S R → Type 0
Proceeds P Q measure m (again s) = P s × (measure s < m)
Proceeds P Q measure m (done s r) = Q s r

pub run_rounds_total :
    {S R : Type 0} (P : S → Type 0) (Q : S → R → Type 0) (measure : S → ℕ) (round : S → Round S R)
    → ((s : S) → P s → Proceeds P Q measure (measure s) (round s))
    → (fuel : ℕ) (s : S) → measure s < fuel
    → P s
    → (out : S × R) × (run_rounds fuel round s ≡ some out) × Q out.0 out.1
unfolding run_rounds
run_rounds_total P Q measure round step zero s enough p = absurd (omega arith)
run_rounds_total {S} {R} P Q measure round step (suc fuel) s enough p =
    elim (Round-cases (round s)) [
      | inl (s', e) ↦
          let h : Proceeds P Q measure (measure s) (again s') =
            subst (Proceeds P Q measure (measure s)) e (step s p) in
          rw (e, run_rounds)
            (run_rounds_total P Q measure round step fuel s' (omega (arith, h.1)) h.0)
      | inr ((s', r), e) ↦
          let h : Proceeds P Q measure (measure s) (done s' r) =
            subst (Proceeds P Q measure (measure s)) e (step s p) in
          rw (e, run_rounds) ((s', r), refl, h)
    ]
