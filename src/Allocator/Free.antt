-- ===== src/Allocator/Free.antt =====
-- The search loop of kfree (memalloc.c) and the removal from the list of sections.
use mathlib.Core.Path.{subst, sym, ◌∙◌}
use echelon_sbi.Base.{
  ℕ, zero, suc, ◌≤◌, ◌<◌, ◌≡◌, ◌≢◌, refl, true, false, Bool-cases, inl, inr, ◌==◌, ltb,
  if◌then◌else◌, some, List, [], ◌∷◌, length, update, arith,
}
use echelon_sbi.Allocator.{next_field, kfree_loop}
use echelon_sbi.Allocator.Sections.{Section, section, limit, IsChain}
use echelon_sbi.Allocator.Allocate.{IsChain-beyond}
use echelon_sbi.Allocator.Search.{link_kept, far_lem}

-- The list without the section at `target`.
unfoldable pub remove : (target : ℕ) → List Section → List Section
remove target [] = []
remove target (s ∷ rest) =
    let later = remove target rest in
    if s.address == target then if s.size == 0 then s ∷ rest else rest else s ∷ later

-- The first section cannot go: it becomes empty.
unfoldable pub release : (target : ℕ) → List Section → List Section
unfolding remove
release target [] = []
release target (s ∷ rest) =
    if s.address == target then section s.address 0 ∷ rest else s ∷ remove target rest

abbrev pub Removes : (fuel e target p : ℕ) (ps : Section) (w : ℕ → ℕ) (xs : List Section) → Type 0
Removes fuel e target p ps w xs =
    (w' : ℕ → ℕ) × (kfree_loop fuel e target (w (next_field p)) p w ≡ some w')
    × IsChain w' e p (ps ∷ xs)
    × ((x : ℕ) → x < next_field p → w' x ≡ w x)

module _ (w : ℕ → ℕ) (t p next x : ℕ) where
  unlink_off : x ≢ t → x ≢ next_field p → update (update w t 0) (next_field p) next x ≡ w x
  unlink_off n0 n1 = ground arith

  unlink_link : update (update w t 0) (next_field p) next (next_field p) ≡ next
  unlink_link = ground arith

-- The section behind `ps` is unlinked.
unlink-IsChain :
    (w : ℕ → ℕ) (e p : ℕ) (ps s : Section) (rest : List Section)
    → IsChain w e p (ps ∷ s ∷ rest)
    → IsChain
        (update (update w (w (next_field p)) 0) (next_field p) (w (next_field (w (next_field p)))))
        e
        p
        (ps ∷ rest)
unfolding IsChain
unlink-IsChain w e p ps s rest c =
    let (at, used, positive) = c.0 in
    let (wide, room, inside) = c.1 in
    let (at_s, used_s, positive_s) = c.2.0 in
    let (wide_s, room_s, inside_s) = c.2.1 in
    let far = far_lem p s.address ps wide room in
    let t = w (next_field p) in
    let far_s = far_lem t (limit e rest) s wide_s room_s in
    let next = w (next_field t) in
    let w' = update (update w t 0) (next_field p) next in
    let tail =
      IsChain-beyond w w' e next rest c.2.2
        λ x le. unlink_off w t p next x (omega arith) (omega arith) in
    (
      (at, unlink_off w t p next p (omega arith) (omega arith) ∙ used, positive),
      (wide, omega arith, inside_s),
      subst (λ n. IsChain w' e n rest) (sym (unlink_link w t p next 0)) tail.0,
    )

skip-IsChain :
    (w w' : ℕ → ℕ) (e p : ℕ) (ps s : Section) (rest ys : List Section)
    → IsChain w e p (ps ∷ s ∷ rest)
    → IsChain w' e (w (next_field p)) (s ∷ ys)
    → ((x : ℕ) → x < next_field (w (next_field p)) → w' x ≡ w x)
    → IsChain w' e p (ps ∷ s ∷ ys)
unfolding IsChain
skip-IsChain w w' e p ps s rest ys c d below =
    let (at, used, positive) = c.0 in
    let (wide, room, inside) = c.1 in
    let far = far_lem p s.address ps wide room in
    let link = c.2.0.0 in
    (
      (at, below p (omega arith) ∙ used, positive),
      (wide, room, inside),
      subst (λ n. IsChain w' e n (s ∷ ys)) (sym (below (next_field p) (omega arith))) d,
    )

-- One round, at a section of the chain behind another.
module _ (fuel e target p : ℕ) (ps : Section) (w : ℕ → ℕ) (s : Section) (rest : List Section)
    (c : IsChain w e p (ps ∷ s ∷ rest)) where
  abbrev t : ℕ
  t = w (next_field p)

  places : (t ≡ s.address) × (w t ≡ s.size) × (next_field p < t) × (t < e) × (0 < p)
  unfolding IsChain
  places =
      let far = far_lem p s.address ps c.1.0 c.1.1 in
      let far_s = far_lem t (limit e rest) s c.2.1.0 c.2.1.1 in
      let inside = c.2.1.2 in let at = c.2.0.0 in (at, c.2.0.1, omega arith, omega arith, c.0.2)

  free_round : kfree_loop (suc fuel) e target t p w ≡ (
      if s.address == target
      then if s.size == 0
        then some w
        else some (update (update w t 0) (next_field p) (w (next_field t)))
      else if w (next_field t) == 0
      then some w
      else kfree_loop fuel e target (w (next_field t)) t w)
  unfolding kfree_loop
  free_round =
      let (at, size, above, before, positive) = places in
      let inside : ltb t e ≡ true = ground arith in
      let has_prev : (p == 0) ≡ false = ground arith in rw (inside, has_prev, size, at) refl

  hit-Removes :
      (s.address == target) ≡ true → Removes (suc fuel) e target p ps w (remove target (s ∷ rest))
  unfolding remove
  hit-Removes hit =
      let (at, size, above, before, positive) = places in
      elim (Bool-cases (s.size == 0)) [
        | inl empty ↦ (w, free_round ∙ rw (hit, empty) refl, rw (hit, empty) c, λ x lt. refl)
        | inr sized ↦ (
          update (update w t 0) (next_field p) (w (next_field t)),
          free_round ∙ rw (hit, sized) refl,
          rw (hit, sized) (unlink-IsChain w e p ps s rest c),
          λ x lt. unlink_off w t p (w (next_field t)) x (omega arith) (omega arith),
        )
      ]

pub kfree_loop-Removes :
    (fuel e target p : ℕ) (ps : Section) (w : ℕ → ℕ) (s : Section) (rest : List Section)
    → IsChain w e p (ps ∷ s ∷ rest)
    → length (s ∷ rest) ≤ fuel
    → Removes fuel e target p ps w (remove target (s ∷ rest))
unfolding remove IsChain
kfree_loop-Removes zero e target p ps w s rest c enough = absurd (omega arith)
kfree_loop-Removes (suc fuel) e target p ps w s [] c enough =
    elim (Bool-cases (s.address == target)) [
      | inl hit ↦ hit-Removes fuel e target p ps w s [] c hit
      | inr miss ↦ (
        w,
        free_round fuel e target p ps w s [] c ∙ rw (miss, c.2.2) refl,
        rw miss c,
        λ x lt. refl,
      )
    ]
kfree_loop-Removes (suc fuel) e target p ps w s (n ∷ rest) c enough =
    elim (Bool-cases (s.address == target)) [
      | inl hit ↦ hit-Removes fuel e target p ps w s (n ∷ rest) c hit
      | inr miss ↦
          let (at, size, above, before, positive) = places fuel e target p ps w s (n ∷ rest) c in
          let (w', run, d, below) =
            kfree_loop-Removes fuel e target (w (next_field p)) s w n rest c.2 (omega arith) in
          (
            w',
            free_round fuel e target p ps w s (n ∷ rest) c
                ∙ rw (miss, link_kept (w (next_field (w (next_field p)))) c.2.2.0.2) run,
            rw miss (skip-IsChain w w' e p ps s (n ∷ rest) (remove target (n ∷ rest)) c d below),
            λ x lt. below x (omega arith),
          )
    ]
