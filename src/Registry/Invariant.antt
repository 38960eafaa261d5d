-- ===== src/Registry/Invariant.antt =====
-- The registry's invariant, and what a history keeps of the ids that were handed out.
use boardswarm.Prelude.{
  ℕ, ◌+◌, ◌≤◌, ◌<◌, ◌≡◌, none, some, List, [], ◌∷◌, arith, length, ◌==◌, nat_eq, if◌then◌else◌,
  Option-cases, Bool-cases, true, false, sym, ap, ◌∙◌, inl, inr,
}
use boardswarm.Collections.BTreeMap
use boardswarm.Collections.BTreeMap.{
  Ascending, Below, get-insert, get-remove, Ascending-insert, Ascending-remove, Below-insert,
  Below-remove, Below-mono, get_past,
}
use boardswarm.Registry.Properties.{Properties}
use boardswarm.Registry.Store.{Registry, new, add, remove, lookup, next_index, u64_mod}
use boardswarm.Registry.History.{Call, adds, removes, step, run, hands_out}

-- The ids rise along the map, and none has been handed out at or past `next`.
pub record IsValid {ℓ} {T : Type ℓ} (r : Registry T) : Type 0 where
  pub ascending : Ascending 0 r.contents
  pub below : Below r.next r.contents

module _ {ℓ} {T : Type ℓ} where
  pub new-IsValid : IsValid (new {T = T})
  unfolding new
  new-IsValid = record { ascending = tt; below = tt }

  pub next-add :
      (r : Registry T) (p : Properties) (t : T)
      → r.next + 1 < u64_mod
      → (add r p t).1.next ≡ r.next + 1
  unfolding add next_index
  next-add r p t h = omega arith

  pub add-IsValid :
      (r : Registry T) (p : Properties) (t : T)
      → IsValid r
      → r.next + 1 < u64_mod
      → IsValid (add r p t).1
  unfolding add next_index
  add-IsValid r p t v h = record {
    ascending = Ascending-insert 0 r.contents r.next _ (omega arith) v.ascending;
    below =
        let e : next_index r.next ≡ r.next + 1 = omega arith in
        rw e (
          Below-insert (r.next + 1) r.contents r.next _ (omega arith)
            (Below-mono r.next (r.next + 1) r.contents (omega arith) v.below));
  }

  pub remove-IsValid : (r : Registry T) (id : ℕ) → IsValid r → IsValid (remove r id)
  unfolding remove
  remove-IsValid r id v = elim (Option-cases (BTreeMap.get r.contents id)) [
    | inl e ↦ rw (e, remove) v
    | inr (it, e) ↦
        rw (e, remove)
          (record {
            ascending = Ascending-remove 0 r.contents id v.ascending;
            below = Below-remove r.next r.contents id v.below;
          })
  ]

  pub next-remove : (r : Registry T) (id : ℕ) → (remove r id).next ≡ r.next
  unfolding remove
  next-remove r id = ground arith

  -- Every call keeps the invariant, as long as the counter of ids does not wrap.
  pub step-IsValid :
      (r : Registry T) (c : Call T) → r.next + 1 < u64_mod → IsValid r → IsValid (step r c)
  unfolding step
  step-IsValid r (adds p t) h v = add-IsValid r p t v h
  step-IsValid r (removes id) h v = remove-IsValid r id v

  pub next-step :
      (r : Registry T) (c : Call T)
      → r.next + 1 < u64_mod
      → (r.next ≤ (step r c).next) × ((step r c).next ≤ r.next + 1)
  unfolding step
  next-step r (adds p t) h = omega (arith, next-add r p t h)
  next-step r (removes id) h = omega (arith, next-remove r id)

  -- A history shorter than the ids that are left keeps the registry's invariant: the ids rise
  -- along the map, and none has been handed out at or past the next one.
  pub run-IsValid :
      (r : Registry T) (cs : List (Call T))
      → r.next + length cs < u64_mod
      → IsValid r
      → IsValid (run r cs)
  unfolding run
  run-IsValid r [] h v = v
  run-IsValid r (c ∷ cs) h v =
      run-IsValid (step r c) cs (omega (arith, next-step r c (omega arith)))
        (step-IsValid r c (omega arith) v)

  pub lookup-add :
      (r : Registry T) (p : Properties) (t : T) (id : ℕ)
      → lookup (add r p t).1 id ≡ (if r.next == id then some (add r p t).0.1 else lookup r id)
  unfolding add lookup
  lookup-add r p t id = get-insert r.contents r.next id _

  pub lookup-remove :
      (r : Registry T) (id j : ℕ) → lookup (remove r id) j ≡ (if id == j then none else lookup r j)
  unfolding remove lookup
  lookup-remove r id j = ground (arith, get-remove r.contents id j)

  pub lookup_past : (r : Registry T) (id : ℕ) → IsValid r → r.next ≤ id → lookup r id ≡ none
  unfolding lookup
  lookup_past r id v h = get_past r.next r.contents id v.below h

  step-unused :
      (r : Registry T) (c : Call T) (id : ℕ)
      → id < r.next
      → lookup r id ≡ none
      → lookup (step r c) id ≡ none
  unfolding step
  step-unused r (adds p t) id h e = ground (arith, lookup-add r p t id)
  step-unused r (removes j) id h e = ground (arith, lookup-remove r j id)

  below_unused :
      (r : Registry T) (cs : List (Call T)) (id : ℕ)
      → r.next + length cs < u64_mod
      → id < r.next
      → lookup r id ≡ none
      → lookup (run r cs) id ≡ none
  unfolding run
  below_unused r [] id h below e = e
  below_unused r (c ∷ cs) id h below e =
      let bounds = next-step r c (omega arith) in
      below_unused (step r c) cs id (omega arith) (omega arith) (step-unused r c id below e)

  next-run :
      (r : Registry T) (cs : List (Call T))
      → r.next + length cs < u64_mod
      → (r.next ≤ (run r cs).next) × ((run r cs).next ≤ r.next + length cs)
  unfolding run
  next-run r [] h = omega arith
  next-run r (c ∷ cs) h =
      let bounds = next-step r c (omega arith) in
      omega (arith, bounds, next-run (step r c) cs (omega arith))

  -- The ids that a history hands out are from `next` before it up to `next` after it.
  handed_out_below :
      (r : Registry T) (cs : List (Call T)) (id : ℕ)
      → r.next + length cs < u64_mod
      → hands_out r cs id ≡ true
      → (r.next ≤ id) × (id < (run r cs).next)
  unfolding hands_out run step add
  handed_out_below r [] id h was = absurd (let no : ⊥ = cc in no)
  handed_out_below r (adds p t ∷ cs) id h was =
      let bounds = next-add r p t (omega arith) in
      let later = next-run (add r p t).1 cs (omega (arith, bounds)) in
      elim (Bool-cases (r.next == id)) [
        | inl now ↦
            let same = (nat_eq.beq_iff r.next id).0 now in
            (omega (arith, same), omega (arith, same, bounds, later))
        | inr not_now ↦
            let was' : hands_out (add r p t).1 cs id ≡ true =
              sym (ap (λ b. if b then true else hands_out (add r p t).1 cs id) not_now) ∙ was in
            let ih = handed_out_below (add r p t).1 cs id (omega (arith, bounds)) was' in
            (omega (arith, bounds, ih), ih.1)
      ]
  handed_out_below r (removes j ∷ cs) id h was =
      let same = next-remove r j in
      let ih = handed_out_below (remove r j) cs id (omega (arith, same)) was in
      (omega (arith, same, ih), ih.1)

  -- An id that a history handed out, and that names no item at its end, is not handed out again by
  -- what follows, and names no item after it, as long as the counter does not wrap.
  pub id_not_reused :
      (r : Registry T) (before after : List (Call T)) (id : ℕ)
      → r.next + (length before + length after) < u64_mod
      → hands_out r before id ≡ true
      → lookup (run r before) id ≡ none
      → (hands_out (run r before) after id ≡ false) × (lookup (run (run r before) after) id ≡ none)
  id_not_reused r before after id h was gone =
      let (from, below) = handed_out_below r before id (omega arith) was in
      let bounds = next-run r before (omega arith) in
      (
        elim (Bool-cases (hands_out (run r before) after id)) [
          | inl again ↦
              let past = handed_out_below (run r before) after id (omega (arith, bounds)) again in
              absurd (omega (arith, past, below))
          | inr never ↦ never
        ],
        below_unused (run r before) after id (omega (arith, bounds)) below gone,
      )

  -- In a valid registry add hands out an id that no item had, and then a lookup finds the new item
  -- under that id, and under any other id what it found before.
  pub add_fresh :
      (r : Registry T) (p : Properties) (t : T) (id : ℕ)
      → IsValid r
      → (lookup r (add r p t).0.0 ≡ none)
        × (lookup (add r p t).1 id ≡ (
            if (add r p t).0.0 == id
            then some (record { properties = p; item = t })
            else lookup r id))
  unfolding add
  add_fresh r p t id v = (lookup_past r r.next v (omega arith), lookup-add r p t id)
