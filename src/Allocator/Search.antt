-- ===== src/Allocator/Search.antt =====
-- The search loop of kmalloc (memalloc.c) and the first fit on the list of sections.
use mathlib.Core.Path.{subst, sym, ◌∙◌}
use echelon_sbi.Base.{
  ℕ, zero, suc, ◌+◌, ◌^◌, ◌≤◌, ◌<◌, ◌≡◌, refl, true, false, inl, inr, ◌==◌, ◌||◌, leb, some, List,
  [], ◌∷◌, length, arith,
}
use echelon_sbi.Allocator.{header, next_field, place, kmalloc_loop}
use echelon_sbi.Allocator.Sections.{Section, limit, extent, IsChain, first_fit}
use echelon_sbi.Allocator.Allocate.{IsSame, IsPlaced, place-IsPlaced}
use echelon_sbi.Allocator.Round.{
  later_link, pick, chain_round, first_fit_bounds, limits, extent_bounds,
}

-- A place that the first fit finds is the one that the loop takes.
abbrev pub Finds : (fuel block_end size first new : ℕ) (w : ℕ → ℕ) (xs ys : List Section) → Type 0
Finds fuel block_end size first new w xs ys =
    (w' : ℕ → ℕ) × (kmalloc_loop fuel block_end size first w ≡ some (new + header, w'))
    × IsPlaced block_end first w w' xs ys

limit_at : (w : ℕ → ℕ) (e n : ℕ) (xs : List Section) → IsChain w e n xs → 0 < n → limit e xs ≡ n
unfolding IsChain
limit_at w e n [] c positive = absurd (omega arith)
limit_at w e n (s ∷ rest) c positive = sym c.0.0

pub far_lem :
    (a n : ℕ) (t : Section)
    → (t.size == 0 || leb header t.size) ≡ true
    → a + extent t ≤ n
    → a + header ≤ n
far_lem a n t wide room = ground arith

-- A section in front of a placement further on.
front-IsPlaced :
    (w w' : ℕ → ℕ) (e first next : ℕ) (s : Section) (rest zs : List Section)
    → IsChain w e first (s ∷ rest)
    → w (next_field first) ≡ next
    → next ≡ limit e rest
    → 0 < next
    → IsPlaced e next w w' rest zs
    → IsPlaced e first w w' (s ∷ rest) (s ∷ zs)
unfolding IsChain IsSame
front-IsPlaced w w' e first next s rest zs c link at_limit positive p =
    let (at, used, some_address) = c.0 in
    let (wide, room, inside) = c.1 in
    let far : first + header ≤ next = far_lem first next s wide (omega arith) in
    let (_, _, covered) = extent_bounds first e (limit e rest) (w first) s at used room inside in
    let at_next = limit_at w' e next zs p.chain positive in
    record {
      chain = (
        (at, p.below first (omega arith) ∙ used, some_address),
        (wide, omega arith, omega arith),
        subst (λ n. IsChain w' e n zs) (sym (p.below (next_field first) (omega arith) ∙ link))
            p.chain,
      );
      below = λ x lt. p.below x (omega arith);
      contents = (λ x lo hi. p.below x (omega arith), p.contents);
    }

pub rest_of :
    (w : ℕ → ℕ) (e first : ℕ) (s : Section) (rest : List Section)
    → IsChain w e first (s ∷ rest)
    → IsChain w e (w (next_field first)) rest
unfolding IsChain
rest_of w e first s rest c = c.2

pub first_of :
    (w : ℕ → ℕ) (e first : ℕ) (s : Section) (rest : List Section)
    → IsChain w e first (s ∷ rest)
    → first ≡ s.address
unfolding IsChain
first_of w e first s rest c = c.0.0

sum_fits : (sum : ℕ) → (sum < 2 ^ 32) → leb (2 ^ 32) sum ≡ false
sum_fits sum h = ground arith

pub link_kept : (n : ℕ) → 0 < n → (n == 0) ≡ false
link_kept n h = ground arith

pub kmalloc_loop-Finds :
    (fuel e size first new : ℕ) (w : ℕ → ℕ) (xs ys : List Section)
    → IsChain w e first xs
    → length xs ≤ fuel
    → e < 2 ^ 32
    → 2 ^ 31 ≤ first
    → header ≤ size
    → size < 2 ^ 32
    → first_fit e size xs ≡ some (new, ys)
    → Finds fuel e size first new w xs ys
unfolding first_fit
kmalloc_loop-Finds fuel e size first new w [] ys c enough bound high large fits found =
    absurd (ground arith)
kmalloc_loop-Finds zero e size first new w (s ∷ rest) ys c enough bound high large fits found =
    absurd (omega arith)
kmalloc_loop-Finds (suc fuel) e size first new w (s ∷ rest) ys c enough bound high large fits
      found =
    elim (pick _ _ new _ ys s (first_fit e size rest) found) [
      | inl (here, same, list) ↦
          subst (λ n. Finds (suc fuel) e size first n w (s ∷ rest) ys) same
            (subst (λ l. Finds (suc fuel) e size first (s.address + s.size) w (s ∷ rest) l) list
              (
                place w first (s.address + s.size) size (w (next_field first)),
                chain_round w fuel e size first s rest c bound high large fits ∙ rw here refl,
                place-IsPlaced w e first size s rest c large (ground arith),
              ))
      | inr (full, (zs, later, list)) ↦
          let next = w (next_field first) in
          let (link, positive) =
            later_link w e size next new rest zs (rest_of w e first s rest c) later in
          let (low, inside) =
            first_fit_bounds w e size next new rest zs (rest_of w e first s rest c) later in
          let (_, _, _, _, covered) = limits w fuel e size first s rest c bound high large fits in
          let (w', run, p) =
            kmalloc_loop-Finds fuel e size next new w rest zs (rest_of w e first s rest c)
              (omega arith) bound (omega (arith, first_of w e first s rest c)) large fits later in
          subst (λ l. Finds (suc fuel) e size first new w (s ∷ rest) l) list
            (
              w',
              chain_round w fuel e size first s rest c bound high large fits
                  ∙ rw
                      (
                        full,
                        sum_fits (s.address + s.size + size) (omega arith),
                        link_kept next positive,
                      )
                      run,
              front-IsPlaced w w' e first next s rest zs c refl link positive p,
            )
    ]
