-- ===== src/Allocator/Round.antt =====
-- One round of the search loop of kmalloc (memalloc.c) on a chain of sections.
use mathlib.Core.Path.{sym, ◌∙◌}
use echelon_sbi.Base.{
  ℕ, suc, ◌+◌, ◌^◌, ◌≤◌, ◌<◌, ◌≡◌, refl, Bool, true, false, inl, inr, ◌⊎◌, ◌==◌, leb, if◌then◌else◌,
  Option, none, some, List, [], ◌∷◌, u32, arith,
}
use echelon_sbi.Allocator.{header, next_field, place, kmalloc_loop}
use echelon_sbi.Allocator.Sections.{Section, limit, extent, IsChain, keep, first_fit}

keep-some :
    (s : Section) (r : Option (ℕ × List Section)) (new : ℕ) (ys : List Section)
    → keep s r ≡ some (new, ys)
    → (zs : List Section) × (r ≡ some (new, zs)) × (s ∷ zs ≡ ys)
keep-some s none new ys e = absurd (ground arith)
keep-some s (some (a, zs)) new ys e = (zs, ground arith, ground arith)

pub keep-none : (s : Section) (r : Option (ℕ × List Section)) → keep s r ≡ none → r ≡ none
keep-none s none e = refl
keep-none s (some (a, zs)) e = absurd (ground arith)

-- The two ways to a place: here, or later in the list.
pub pick :
    (b : Bool) (here new : ℕ) (zs ys : List Section) (s : Section) (r : Option (ℕ × List Section))
    → (if b then some (here, zs) else keep s r) ≡ some (new, ys)
    → ((b ≡ true) × (here ≡ new) × (zs ≡ ys))
      ⊎ ((b ≡ false) × ((later : List Section) × (r ≡ some (new, later)) × (s ∷ later ≡ ys)))
pick true here new zs ys s r e = inl (refl, ground arith, ground arith)
pick false here new zs ys s r e = inr (refl, keep-some s r new ys e)

-- A place later in the list: there is a next section.
pub later_link :
    (w : ℕ → ℕ) (e size next new : ℕ) (rest ys : List Section)
    → IsChain w e next rest
    → first_fit e size rest ≡ some (new, ys)
    → (next ≡ limit e rest) × (0 < next)
unfolding IsChain first_fit
later_link w e size next new [] ys c found = absurd (ground arith)
later_link w e size next new (t ∷ rest) ys c found = (c.0.0, c.0.2)

pub first_fit_bounds :
    (w : ℕ → ℕ) (e size first new : ℕ) (xs ys : List Section)
    → IsChain w e first xs
    → first_fit e size xs ≡ some (new, ys)
    → (first ≤ new) × (new + size ≤ e)
unfolding IsChain first_fit
first_fit_bounds w e size first new [] ys c found = absurd (ground arith)
first_fit_bounds w e size first new (s ∷ rest) ys c found =
    let (at, used, positive) = c.0 in
    let (wide, room, inside) = c.1 in
    elim (pick _ _ new _ ys s (first_fit e size rest) found) [
      | inl (fits, same, list) ↦ (omega arith, ground arith)
      | inr (full, (zs, later, list)) ↦
          let (low, high) =
            first_fit_bounds w e size (w (next_field first)) new rest zs c.2 later in
          let (link, _) = later_link w e size (w (next_field first)) new rest zs c.2 later in
          (omega arith, high)
    ]

-- One round of the loop, with the wrap-around of its sums as one test.
module _ (w : ℕ → ℕ) (fuel e size first : ℕ) (inside : first < e) (room : first + w first ≤ e)
    (bound : e < 2 ^ 32) (high : 2 ^ 31 ≤ first) (large : header ≤ size)
    (fits : size < 2 ^ 32) where
  round : kmalloc_loop (suc fuel) e size first w ≡ (
      let next = w (next_field first) in
      let new = first + w first in
      if leb (2 ^ 32) (new + size)
      then some (0, w)
      else if next == 0
      then if leb (new + size) e
        then some (new + header, place w first new size next)
        else some (0, w)
      else if leb (new + size) next
      then some (new + header, place w first new size next)
      else kmalloc_loop fuel e size next w)
  unfolding kmalloc_loop
  round = let sum : u32 (first + w first) ≡ first + w first = omega arith in rw sum (ground arith)

-- The link of a section tells whether its limit is the end of the block.
abbrev IsLink : (e next : ℕ) → List Section → Type 0
IsLink e next rest = ((next ≡ 0) × (limit e rest ≡ e)) ⊎ ((0 < next) × (limit e rest ≡ next))

pub link_lem :
    (w : ℕ → ℕ) (e next : ℕ) (rest : List Section) → IsChain w e next rest → IsLink e next rest
unfolding IsChain
link_lem w e next [] c = inl (c, refl)
link_lem w e next (t ∷ rest) c = inr (c.0.2, sym c.0.0)

-- The tests of a round, with the fit first.
merge_tests :
    {A : Type 0} (placed full more : A) (sum e next lim : ℕ)
    → lim ≤ e
    → e < 2 ^ 32
    → ((next ≡ 0) × (lim ≡ e)) ⊎ ((0 < next) × (lim ≡ next))
    → (if leb (2 ^ 32) sum
        then full
        else if next == 0
        then if leb sum e then placed else full
        else if leb sum next
        then placed
        else more)
      ≡ (if leb sum lim
          then placed
          else if leb (2 ^ 32) sum
          then full
          else if next == 0
          then full
          else more)
merge_tests placed full more sum e next lim inside bound (inl (zero_link, last)) = ground arith
merge_tests placed full more sum e next lim inside bound (inr (link, at)) = ground arith

pub extent_bounds :
    (first e lim used : ℕ) (s : Section)
    → first ≡ s.address
    → used ≡ s.size
    → first + extent s ≤ lim
    → lim ≤ e
    → (first < e) × (first + used ≤ e) × (s.address + s.size ≤ lim)
extent_bounds first e lim used s at size room inside = (ground arith, ground arith, ground arith)

module _ (w : ℕ → ℕ) (fuel e size first : ℕ) (s : Section) (rest : List Section)
    (c : IsChain w e first (s ∷ rest)) (bound : e < 2 ^ 32) (high : 2 ^ 31 ≤ first)
    (large : header ≤ size) (fits : size < 2 ^ 32) where
  abbrev next : ℕ
  next = w (next_field first)

  abbrev new : ℕ
  new = s.address + s.size

  pub limits :
      (limit e rest ≤ e)
      × (first < e)
      × (first + w first ≤ e)
      × (first + w first ≡ new)
      × (new ≤ limit e rest)
  unfolding IsChain
  limits =
      let (at, used, positive) = c.0 in
      let (wide, room, inside) = c.1 in
      let (before, within, below) =
        extent_bounds first e (limit e rest) (w first) s at used room inside in
      (inside, before, within, omega arith, below)

  abbrev placement : Option (ℕ × (ℕ → ℕ))
  placement = some (new + header, place w first new size next)

  pub chain_round : kmalloc_loop (suc fuel) e size first w ≡ (
      if leb (new + size) (limit e rest)
      then placement
      else if leb (2 ^ 32) (new + size)
      then some (0, w)
      else if next == 0
      then some (0, w)
      else kmalloc_loop fuel e size next w)
  unfolding IsChain
  chain_round =
      let (inside, before, room, same, _) = limits in
      round w fuel e size first before room bound high large fits
      ∙ rw same (
          merge_tests placement (some (0, w)) (kmalloc_loop fuel e size next w) (new + size) e next
            (limit e rest) inside bound (link_lem w e next rest c.2))
