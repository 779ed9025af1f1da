-- ===== src/Allocator/Written.antt =====
-- memalloc.c: a store to the data of a section leaves the list of sections as it is.
use echelon_sbi.Base.{
  ℕ, ◌+◌, ◌≤◌, ◌<◌, ◌≡◌, ◌⊎◌, inl, inr, ◌∙◌, false, ◌==◌, some, List, [], ◌∷◌, if◌then◌else◌,
  update, update_ne, Bool-cases, arith,
}
use mathlib.Core.Path.{subst}
use echelon_sbi.Allocator.{header, next_field}
use echelon_sbi.Allocator.Sections.{Section, limit, extent, IsChain, behind, first_fit}
use echelon_sbi.Allocator.Round.{pick}

-- The address lies behind the header of one of the sections.
unfoldable pub InData : (a : ℕ) → List Section → Type 0
InData a [] = a < 0
InData a (s ∷ rest) = ((s.address + header ≤ a) × (a < s.address + s.size)) ⊎ InData a rest

InData-above :
    (w : ℕ → ℕ) (e first a : ℕ) (xs : List Section)
    → IsChain w e first xs
    → InData a xs
    → first + header ≤ a
unfolding IsChain InData
InData-above w e first a [] chain inside = absurd (omega arith)
InData-above w e first a (s ∷ []) chain (inl (low, high)) = let at = chain.0.0 in omega arith
InData-above w e first a (s ∷ []) chain (inr inside) = absurd (omega arith)
InData-above w e first a (s ∷ t ∷ rest) chain (inl (low, high)) = let at = chain.0.0 in omega arith
InData-above w e first a (s ∷ t ∷ rest) chain (inr inside) =
    let above = InData-above w e (w (next_field first)) a (t ∷ rest) chain.2 inside in
    let far = chain.1.1 in let link = chain.2.0.0 in ground (arith, above, far, link)

-- A store in front of all sections.
IsChain-in_front :
    (w : ℕ → ℕ) (e first a v : ℕ) (xs : List Section)
    → IsChain w e first xs
    → a < first
    → IsChain (update w a v) e first xs
unfolding IsChain
IsChain-in_front w e first a v [] chain below = chain
IsChain-in_front w e first a v (s ∷ []) chain below =
    let ((at, used, positive), bounds, last) = chain in
    let link = update_ne w a v (next_field first) (λ e. omega arith) in
    ((at, update_ne w a v first (λ e. omega arith) ∙ used, positive), bounds, link ∙ last)
IsChain-in_front w e first a v (s ∷ t ∷ rest) chain below =
    let ((at, used, positive), bounds, later) = chain in
    let next : w (next_field first) ≡ t.address = later.0.0 in
    let link = update_ne w a v (next_field first) (λ e. omega arith) in
    let in_front : a < w (next_field first) = let far = bounds.1 in omega arith in
    (
      (at, update_ne w a v first (λ e. omega arith) ∙ used, positive),
      bounds,
      rw link (IsChain-in_front w e (w (next_field first)) a v (t ∷ rest) later in_front),
    )

-- What lies in front of the end of a section is in front of the next one.
IsChain-after :
    (w : ℕ → ℕ) (e first a v : ℕ) (s : Section) (rest : List Section)
    → IsChain w e first rest
    → s.address + extent s ≤ limit e rest
    → s.address + header ≤ a
    → a < s.address + s.size
    → IsChain (update w a v) e first rest
unfolding IsChain
IsChain-after w e first a v s [] chain far low high = chain
IsChain-after w e first a v s (t ∷ rest) chain far low high =
    let at = chain.0.0 in
    let sized : (s.size == 0) ≡ false = ground arith in
    let size_far : s.address + s.size ≤ t.address =
      subst (λ b. s.address + (if b then header else s.size) ≤ t.address) sized far in
    IsChain-in_front w e first a v (t ∷ rest) chain (omega arith)

-- A store to the data of a section.
pub IsChain-written :
    (w : ℕ → ℕ) (e first a v : ℕ) (xs : List Section)
    → IsChain w e first xs
    → InData a xs
    → IsChain (update w a v) e first xs
unfolding IsChain InData
IsChain-written w e first a v [] chain inside = absurd (omega arith)
IsChain-written w e first a v (s ∷ rest) chain inside =
    let above = InData-above w e first a (s ∷ rest) chain inside in
    let ((at, used, positive), bounds, later) = chain in
    let link = update_ne w a v (next_field first) (λ e. omega arith) in
    let next = w (next_field first) in
    let others : IsChain (update w a v) e next rest = elim inside [
      | inl (low, high) ↦
          IsChain-after w e next a v s rest later
            (subst (λ x. x + extent s ≤ limit e rest) at bounds.1) low high
      | inr further ↦ IsChain-written w e next a v rest later further
    ] in
    ((at, update_ne w a v first (λ e. omega arith) ∙ used, positive), bounds, rw link others)

InData-behind :
    (s : Section) (size a : ℕ) (rest : List Section)
    → s.address + s.size + header ≤ a
    → a < s.address + s.size + size
    → InData a (behind s size rest)
unfolding InData
InData-behind s size a rest low high = elim (Bool-cases (s.size == 0)) [
  | inl empty ↦
      let none_used : s.size ≡ 0 = ground arith in rw empty (inl (omega arith, omega arith))
  | inr sized ↦ rw sized (inr (inl (low, high)))
]

-- The place of a first fit is the data of a section of the new list.
pub first_fit-InData :
    (e size new a : ℕ) (xs ys : List Section)
    → first_fit e size xs ≡ some (new, ys)
    → new + header ≤ a
    → a < new + size
    → InData a ys
unfolding first_fit InData
first_fit-InData e size new a [] ys found low high = absurd (ground arith)
first_fit-InData e size new a (s ∷ rest) ys found low high =
    elim (pick _ _ new _ ys s (first_fit e size rest) found) [
      | inl (fits, same, list) ↦
          subst (InData a) list (InData-behind s size a rest (omega arith) (omega arith))
      | inr (full, (zs, later, list)) ↦
          subst (InData a) list (inr (first_fit-InData e size new a rest zs later low high))
    ]
