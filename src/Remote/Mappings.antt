-- ===== src/Remote/Mappings.antt =====
-- The mappings of `update_mappings` and `provider_sync`, against the provider's ids.
use boardswarm.Prelude.{
  ℕ, ◌≡◌, refl, sym, ◌∙◌, Bool, true, false, Option, none, some, List, [], ◌∷◌, arith, nat_eq,
  if◌then◌else◌, Option-cases, inl, inr,
}
use boardswarm.Collections.HashMap
use boardswarm.Collections.HashMap.{HashMap}
use boardswarm.Device.Monitor.{ItemView}
use boardswarm.Remote.Device.{
  mapping_of, same_id, any_moved, seen_through, id_through, add_known, is_moved,
}

-- Every entry of a mapping is one of the provider.
abbrev pub IsWithin : HashMap ℕ ℕ → HashMap ℕ ℕ → Type 0
IsWithin mapping ids =
    (remote local : ℕ)
    → HashMap.get mapping remote ≡ some local
    → HashMap.get ids remote ≡ some local

add_known-IsWithin :
    (ids mapping : HashMap ℕ ℕ) (id : Option ℕ)
    → IsWithin mapping ids
    → IsWithin (add_known ids mapping id) ids
unfolding add_known
add_known-IsWithin ids mapping none within = within
add_known-IsWithin ids mapping (some remote) within = elim (Option-cases (HashMap.get ids remote)) [
  | inl gone ↦ rw (gone, add_known) within
  | inr (local, there) ↦
      rw (there, add_known)
        (λ r l e. ground (
          arith,
          HashMap.get-insert mapping remote r local,
          nat_eq.beq_iff remote r,
          within r l,
          there,
          e,
        ))
]

-- What a mapping has already stays.
add_known_keeps :
    (ids mapping : HashMap ℕ ℕ) (id : Option ℕ) (r l : ℕ)
    → HashMap.get ids r ≡ some l
    → HashMap.get mapping r ≡ some l
    → HashMap.get (add_known ids mapping id) r ≡ some l
unfolding add_known
add_known_keeps ids mapping none r l known has = has
add_known_keeps ids mapping (some remote) r l known has =
    elim (Option-cases (HashMap.get ids remote)) [
      | inl gone ↦ rw (gone, add_known) has
      | inr (local, there) ↦
          rw (there, add_known)
            (ground (
              arith,
              HashMap.get-insert mapping remote r local,
              nat_eq.beq_iff remote r,
              there,
              known,
              has,
            ))
    ]

add_known_puts :
    (ids mapping : HashMap ℕ ℕ) (remote local : ℕ)
    → HashMap.get ids remote ≡ some local
    → HashMap.get (add_known ids mapping (some remote)) remote ≡ some local
unfolding add_known
add_known_puts ids mapping remote local there =
    rw (there, add_known)
      (ground (arith, HashMap.get-insert mapping remote remote local, nat_eq.beq_iff remote remote))

mapping_of_keeps :
    (ids mapping : HashMap ℕ ℕ) (cs : List ItemView) (r l : ℕ)
    → HashMap.get ids r ≡ some l
    → HashMap.get mapping r ≡ some l
    → HashMap.get (mapping_of ids mapping cs) r ≡ some l
unfolding mapping_of
mapping_of_keeps ids mapping [] r l known has = has
mapping_of_keeps ids mapping (c ∷ cs) r l known has =
    mapping_of_keeps ids (add_known ids mapping c.id) cs r l known
      (add_known_keeps ids mapping c.id r l known has)

mapping_of-IsWithin :
    (ids mapping : HashMap ℕ ℕ) (cs : List ItemView)
    → IsWithin mapping ids
    → IsWithin (mapping_of ids mapping cs) ids
unfolding mapping_of
mapping_of-IsWithin ids mapping [] within = within
mapping_of-IsWithin ids mapping (c ∷ cs) within =
    mapping_of-IsWithin ids (add_known ids mapping c.id) cs
      (add_known-IsWithin ids mapping c.id within)

-- The id of an item that the loop has passed.
passed_id :
    (ids mapping : HashMap ℕ ℕ) (cs : List ItemView) (id : Option ℕ)
    → IsWithin mapping ids
    → id_through (mapping_of ids (add_known ids mapping id) cs) id ≡ id_through ids id
passed_id ids mapping cs none within = refl
passed_id ids mapping cs (some remote) within = elim (Option-cases (HashMap.get ids remote)) [
  | inl gone ↦
      elim (Option-cases
        (HashMap.get (mapping_of ids (add_known ids mapping (some remote)) cs) remote)) [
          | inl e ↦ e ∙ sym gone
          | inr (l, e) ↦
              let known =
                mapping_of-IsWithin ids (add_known ids mapping (some remote)) cs
                  (add_known-IsWithin ids mapping (some remote) within) remote l e in
              cc
        ]
  | inr (local, there) ↦
      mapping_of_keeps ids (add_known ids mapping (some remote)) cs remote local there
        (add_known_puts ids mapping remote local there)
      ∙ sym there
]

-- An item whose id is one there is shown under the provider's id for it.
pub mapping_of_shows :
    (ids mapping : HashMap ℕ ℕ) (cs : List ItemView)
    → IsWithin mapping ids
    → seen_through (mapping_of ids mapping cs) cs ≡ seen_through ids cs
unfolding mapping_of
mapping_of_shows ids mapping [] within = refl
mapping_of_shows ids mapping (c ∷ cs) within =
    let id = passed_id ids mapping cs c.id within in
    let rest =
      mapping_of_shows ids (add_known ids mapping c.id) cs
        (add_known-IsWithin ids mapping c.id within) in
    cc

same_id_lem : (a b : Option ℕ) → same_id a b ≡ true → b ≡ a
same_id_lem a b e = ground (arith, e)

still_id :
    (ids mapping : HashMap ℕ ℕ) (id : Option ℕ)
    → is_moved ids mapping id ≡ false
    → id_through mapping id ≡ id_through ids id
unfolding is_moved
still_id ids mapping none e = refl
still_id ids mapping (some remote) e =
    same_id_lem (HashMap.get ids remote) (HashMap.get mapping remote) (ground (arith, e))

pub neither : (a b : Bool) → (if a then true else b) ≡ false → (a ≡ false) × (b ≡ false)
neither a b e = ground (arith, e)

pub any_moved_shows :
    (ids mapping : HashMap ℕ ℕ) (cs : List ItemView)
    → any_moved ids mapping cs ≡ false
    → seen_through mapping cs ≡ seen_through ids cs
unfolding any_moved
any_moved_shows ids mapping [] still = refl
any_moved_shows ids mapping (c ∷ cs) still =
    let (stays, others) = neither (is_moved ids mapping c.id) (any_moved ids mapping cs) still in
    let id = still_id ids mapping c.id stays in
    let rest = any_moved_shows ids mapping cs others in cc
