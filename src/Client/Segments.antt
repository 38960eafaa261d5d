-- ===== src/Client/Segments.antt =====
-- Pieces of a volume's bytes, by where they stand in it.
use boardswarm.Prelude.{
  ℕ, zero, suc, ◌+◌, ◌^◌, ◌≤◌, ◌<◌, ◌≡◌, refl, sym, ap, ◌∙◌, [], ◌∷◌, ◌++◌, append_assoc, Bytes,
  arith, length, take, drop, saturating_add, take-append-drop, length-append, length-drop,
}

-- The bytes stand in the volume from an offset on.
abbrev pub Segment : Bytes → ℕ → Bytes → Type 0
Segment volume offset b = (rest : Bytes) × (drop offset volume ≡ b ++ rest)

drop-nil : (n : ℕ) → drop n (let b : Bytes = [] in b) ≡ []
drop-nil zero = refl
drop-nil (suc n) = refl

drop-add : (m n : ℕ) (b : Bytes) → drop (m + n) b ≡ drop n (drop m b)
drop-add zero n b = let e : zero + n ≡ n = omega arith in rw e
drop-add (suc m) n [] = drop-nil (suc m + n) ∙ sym (drop-nil n)
drop-add (suc m) n (x ∷ b) = let e : suc m + n ≡ suc (m + n) = omega arith in rw e (drop-add m n b)

drop-append : (n : ℕ) (b c : Bytes) → n ≤ length b → drop n (b ++ c) ≡ drop n b ++ c
drop-append zero b c h = refl
drop-append (suc n) [] c h = absurd (omega arith)
drop-append (suc n) (x ∷ b) c h = drop-append n b c (omega arith)

-- A segment, cut in two.
pub Segment-take :
    (volume : Bytes) (p n : ℕ) (b : Bytes) → Segment volume p b → Segment volume p (take n b)
Segment-take volume p n b (rest, e) = (
  drop n b ++ rest,
  e ∙ ap (λ l. l ++ rest) (sym (take-append-drop n b)) ∙ append_assoc (take n b) _ _,
)

pub Segment-drop :
    (volume : Bytes) (p n : ℕ) (b : Bytes)
    → n ≤ length b
    → Segment volume p b
    → Segment volume (p + n) (drop n b)
Segment-drop volume p n b h (rest, e) =
    (rest, drop-add p n volume ∙ ap (drop n) e ∙ drop-append n b rest h)

pub Segment-append :
    (volume : Bytes) (p : ℕ) (b c : Bytes)
    → Segment volume p b
    → Segment volume (p + length b) c
    → Segment volume p (b ++ c)
Segment-append volume p b c (rest, e) (rest', e') = (
  rest',
  e
      ∙ ap (λ l. b ++ l)
          (sym (after b rest)
            ∙ ap (drop (length b)) (sym e)
            ∙ sym (drop-add p (length b) volume)
            ∙ e')
      ∙ sym (append_assoc b c rest'),
)
  where
    after : (b rest : Bytes) → drop (length b) (b ++ rest) ≡ rest
    after [] rest = refl
    after (x ∷ b) rest = after b rest

-- A segment that is not empty ends within the volume.
pub Segment-bound :
    (volume : Bytes) (p : ℕ) (b : Bytes)
    → Segment volume p b
    → 0 < length b
    → p + length b ≤ length volume
Segment-bound volume p b (rest, e) h =
    omega (arith, length-drop p volume, ap length e, length-append b rest)

-- The position of a reader, behind `b`, does not saturate within the volume.
pub saturating_within :
    (volume : Bytes) (p : ℕ) (b : Bytes)
    → length volume < 2 ^ 64
    → p < 2 ^ 64
    → Segment volume p b
    → (n : ℕ) → n ≤ length b
    → (saturating_add p n ≡ p + n) × (p + n < 2 ^ 64)
saturating_within volume p b fits h s n hn = ground (arith, Segment-bound volume p b s)
