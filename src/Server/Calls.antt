-- ===== src/Server/Calls.antt =====
-- What registering and unregistering do to each registry.
use boardswarm.Prelude.{
  ℕ, ◌+◌, ◌<◌, ◌≡◌, ap, ◌∙◌, Bool, true, false, ◌&&◌, none, some, arith, ◌==◌, nat_eq, Option-cases,
  inl, inr, if◌then◌else◌,
}
use boardswarm.Registry.Properties.{Properties}
use boardswarm.Registry.Store.{Registry, add, remove, lookup, u64_mod}
use boardswarm.Registry.Invariant.{
  lookup-remove, lookup-add, IsValid, add-IsValid, remove-IsValid, add_fresh, next-add, next-remove,
}
use boardswarm.Server.Items.{
  Server, ItemType, type_beq, type_eq, type_beq_iff, registry_of, registry-with, register,
  unregister,
}

-- What holds of both registries holds of the one that a test picks.
pick :
    {H : Type 0} (P : Registry H → Type 0) (b : Bool) {x y : Registry H}
    → P x
    → P y
    → P (if b then x else y)
pick P true px py = px
pick P false px py = py

module _ {H : Type 0} where
  pub lookup-unregister :
      (k : ItemType) (s : Server H) (id : ℕ) (j : ItemType) (i : ℕ)
      → lookup (registry_of (unregister k s id) j) i
        ≡ (if k == j && id == i then none else lookup (registry_of s j) i)
  unfolding unregister
  lookup-unregister k s id j i = elim (Option-cases (lookup (registry_of s k) id)) [
    | inl e ↦ rw (e, unregister) (ground (arith, e, type_beq_iff k j))
    | inr (item, e) ↦
        rw (e, unregister)
          (ap (λ r. lookup r i) (registry-with s k j (remove (registry_of s k) id))
            ∙ ground (arith, lookup-remove (registry_of s k) id i, type_beq_iff k j))
  ]

  pub lookup-register :
      (k : ItemType) (s : Server H) (p : Properties) (h : H) (j : ItemType) (i : ℕ)
      → lookup (registry_of (register k s p h).1 j) i ≡ (
          if k == j && (register k s p h).0 == i
          then some (record { properties = p; item = h })
          else lookup (registry_of s j) i)
  unfolding register add
  lookup-register k s p h j i =
      ap (λ r. lookup r i) (registry-with s k j (add (registry_of s k) p h).1)
      ∙ ground (arith, lookup-add (registry_of s k) p h i, type_beq_iff k j)

  -- Each of the four registries is valid, and has room for more ids.
  pub record IsValidServer (s : Server H) : Type 0 where
    pub valid : (k : ItemType) → IsValid (registry_of s k)

  abbrev pub Room : ℕ → Server H → Type 0
  Room n s = (k : ItemType) → (registry_of s k).next + n < u64_mod

  pub register-IsValidServer :
      (k : ItemType) (s : Server H) (p : Properties) (h : H)
      → Room 1 s
      → IsValidServer s
      → IsValidServer (register k s p h).1
  unfolding register
  register-IsValidServer k s p h room v = record {
    valid = λ j. rw (registry-with s k j (add (registry_of s k) p h).1) (
        pick IsValid (type_beq k j) (add-IsValid (registry_of s k) p h (v.valid k) (room k))
          (v.valid j));
  }

  pub unregister-IsValidServer :
      (k : ItemType) (s : Server H) (id : ℕ) → IsValidServer s → IsValidServer (unregister k s id)
  unfolding unregister
  unregister-IsValidServer k s id v = elim (Option-cases (lookup (registry_of s k) id)) [
    | inl e ↦ rw (e, unregister) v
    | inr (item, e) ↦
        rw (e, unregister)
          (record {
            valid = λ j. rw (registry-with s k j (remove (registry_of s k) id)) (
                pick IsValid (type_beq k j) (remove-IsValid (registry_of s k) id (v.valid k))
                  (v.valid j));
          })
  ]

  -- Registering takes one id of its own registry, which had none under it; unregistering takes none.
  pub next-register :
      (k : ItemType) (s : Server H) (p : Properties) (h : H) (n : ℕ)
      → Room (n + 1) s
      → Room n (register k s p h).1
  unfolding register
  next-register k s p h n room j = rw (registry-with s k j (add (registry_of s k) p h).1) (
      pick (λ r. r.next + n < u64_mod) (type_beq k j)
        (omega (arith, next-add (registry_of s k) p h (omega (arith, room k)), room k))
        (omega (arith, room j)))

  pub next-unregister :
      (k : ItemType) (s : Server H) (id n : ℕ) → Room n s → Room n (unregister k s id)
  unfolding unregister
  next-unregister k s id n room = elim (Option-cases (lookup (registry_of s k) id)) [
    | inl e ↦ rw (e, unregister) room
    | inr (item, e) ↦
        rw (e, unregister)
          (λ j. rw (registry-with s k j (remove (registry_of s k) id)) (
            pick (λ r. r.next + n < u64_mod) (type_beq k j)
              (omega (arith, next-remove (registry_of s k) id, room k)) (room j)))
  ]

  pub register_fresh :
      (k : ItemType) (s : Server H) (p : Properties) (h : H)
      → IsValidServer s
      → lookup (registry_of s k) (register k s p h).0 ≡ none
  unfolding register
  register_fresh k s p h v = (add_fresh (registry_of s k) p h 0 (v.valid k)).0
