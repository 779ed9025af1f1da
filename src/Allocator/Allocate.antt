-- ===== src/Allocator/Allocate.antt =====
-- kmalloc against the first fit on the list of sections.
use mathlib.Core.Path.{subst, sym, ◌∙◌}
use echelon_sbi.Base.{
  ℕ, ◌+◌, ◌≤◌, ◌<◌, ◌≡◌, ◌≢◌, refl, Bool, true, false, ◌==◌, if◌then◌else◌, List, [], ◌∷◌, arith,
}
use echelon_sbi.Allocator.{header, next_field, place}
use echelon_sbi.Allocator.Sections.{Section, section, limit, extent, IsChain, behind}

-- The data of every section is as before.
unfoldable pub IsSame : (word_at word_at' : ℕ → ℕ) → List Section → Type 0
IsSame w w' [] = Unit
IsSame w w' (s ∷ rest) =
    ((x : ℕ) → s.address + header ≤ x → x < s.address + s.size → w' x ≡ w x) × IsSame w w' rest

pub record IsPlaced (block_end first : ℕ) (w w' : ℕ → ℕ) (xs ys : List Section) : Type 0 where
  pub chain : IsChain w' block_end first ys
  pub below : (x : ℕ) → x < first → w' x ≡ w x
  pub contents : IsSame w w' xs

-- A change below or at headers only elsewhere keeps the rest of a chain.
IsChain-same :
    (w w' : ℕ → ℕ) (block_end first : ℕ) (xs : List Section)
    → ((x : ℕ) → first ≤ x → w' x ≡ w x)
    → IsChain w block_end first xs
    → IsChain w' block_end first xs
unfolding IsChain
IsChain-same w w' e first [] same c = c
IsChain-same w w' e first (s ∷ []) same (at, room, c) =
    ((at.0, ground (arith, same first), at.2), room, ground (arith, same (first + 4)))
IsChain-same w w' e first (s ∷ t ∷ rest) same (at, room, c) = (
  (at.0, ground (arith, same first), at.2),
  room,
  subst (λ n. IsChain w' e n (t ∷ rest)) (sym (same (first + 4) (omega arith)))
      (IsChain-same w w' e (w (first + 4)) (t ∷ rest) (λ x le. same x (ground arith)) c),
)

IsSame-above :
    (w w' : ℕ → ℕ) (block_end first : ℕ) (xs : List Section)
    → IsChain w block_end first xs
    → ((x : ℕ) → first ≤ x → w' x ≡ w x)
    → IsSame w w' xs
unfolding IsChain IsSame
IsSame-above w w' e first [] c same = tt
IsSame-above w w' e first (s ∷ []) (at, room, c) same = (λ x lo hi. same x (ground arith), tt)
IsSame-above w w' e first (s ∷ t ∷ rest) (at, room, c) same = (
  λ x lo hi. same x (ground arith),
  IsSame-above w w' e (w (first + 4)) (t ∷ rest) c (λ x le. same x (ground arith)),
)

pub IsChain-beyond :
    (w w' : ℕ → ℕ) (e first : ℕ) (xs : List Section)
    → IsChain w e first xs
    → ((x : ℕ) → limit e xs ≤ x → w' x ≡ w x)
    → IsChain w' e first xs × IsSame w w' xs
unfolding IsChain IsSame
IsChain-beyond w w' e first [] c same = (c, tt)
IsChain-beyond w w' e first (s ∷ rest) c same =
    let above : (x : ℕ) → first ≤ x → w' x ≡ w x = λ x le. same x (ground (arith, c.0.0)) in
    (IsChain-same w w' e first (s ∷ rest) above c, IsSame-above w w' e first (s ∷ rest) c above)

-- What `place` writes and what it leaves.
module _ (w : ℕ → ℕ) (first new size next x : ℕ) where
  place_off :
      x ≢ next_field first → x ≢ new → x ≢ next_field new → place w first new size next x ≡ w x
  unfolding place
  place_off n0 n1 n2 = ground arith

  place_link : place w first new size next (next_field new) ≡ next
  unfolding place
  place_link = ground arith

  place_size : place w first new size next new ≡ size
  unfolding place
  place_size = ground arith

  place-first :
      next_field first ≢ new → first ≢ new → place w first new size next (next_field first) ≡ new
  unfolding place
  place-first n0 n1 = ground arith

module _ (w : ℕ → ℕ) (e first size : ℕ) (s : Section) (rest : List Section)
    (c : IsChain w e first (s ∷ rest)) (large : header ≤ size)
    (fits : s.address + s.size + size ≤ limit e rest) where
  abbrev placed : ℕ → ℕ
  placed = place w first (s.address + s.size) size (w (next_field first))

  abbrev new : ℕ
  new = s.address + s.size

  abbrev next : ℕ
  next = w (next_field first)

  extent_lem : (a n : ℕ) → header ≤ n → extent (section a n) ≡ n
  extent_lem a n le = ground arith

  tail_kept : IsChain placed e next rest × IsSame w placed rest
  unfolding IsChain
  tail_kept =
      let at = c.0.0 in
      IsChain-beyond w placed e next rest c.2
        λ x le. place_off w first new size next x (omega arith) (omega arith) (omega arith)

  new-IsChain : IsChain placed e new (section new size ∷ rest)
  unfolding IsChain
  new-IsChain =
      let (at, used, positive) = c.0 in
      (
        (refl, place_size w first new size next 0, omega arith),
        (ground (arith, large), omega (arith, extent_lem new size large), c.1.2),
        subst (λ n. IsChain placed e n rest) (sym (place_link w first new size next 0)) tail_kept.0,
      )

  -- A header in front of the new section.
  front-IsChain : (s.size == 0) ≡ false → IsChain placed e first (s ∷ section new size ∷ rest)
  unfolding IsChain
  front-IsChain sized =
      let (at, used, positive) = c.0 in
      let (wide, room, inside) = c.1 in
      let far : header ≤ s.size = ground (arith, wide, sized) in
      (
        (
          at,
          place_off w first new size next first (omega arith) (omega arith) (omega arith) ∙ used,
          positive,
        ),
        (wide, ground (arith, at, sized), omega arith),
        subst (λ n. IsChain placed e n (section new size ∷ rest))
            (sym (place-first w first new size next 0 (omega arith) (omega arith))) new-IsChain,
      )

  first_address : IsChain w e first (s ∷ rest) → first ≡ s.address
  unfolding IsChain
  first_address d = d.0.0

  behind-IsChain :
      (b : Bool)
      → (s.size == 0) ≡ b
      → IsChain placed e first
          (if b then section s.address size ∷ rest else s ∷ section new size ∷ rest)
  behind-IsChain true empty =
      let same : new ≡ s.address = ground (arith, empty) in
      subst (λ a. IsChain placed e a (section s.address size ∷ rest)) (sym (first_address c))
        (subst (λ a. IsChain placed e a (section a size ∷ rest)) same new-IsChain)
  behind-IsChain false sized = front-IsChain sized

-- The new section behind `s` and before `rest`.
pub place-IsPlaced :
    (w : ℕ → ℕ) (e first size : ℕ) (s : Section) (rest : List Section)
    → IsChain w e first (s ∷ rest)
    → header ≤ size
    → s.address + s.size + size ≤ limit e rest
    → IsPlaced e first w
        (place w first (s.address + s.size) size (w (next_field first)))
        (s ∷ rest)
        (behind s size rest)
unfolding IsChain IsSame place
place-IsPlaced w e first size s rest c large fits = record {
  chain = behind-IsChain w e first size s rest c large fits (s.size == 0) refl;
  below = λ x lt. ground (arith, c.0);
  contents = (λ x lo hi. ground (arith, c.0), (tail_kept w e first size s rest c large fits).1);
}
