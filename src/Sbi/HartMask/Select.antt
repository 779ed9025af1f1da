-- ===== src/Sbi/HartMask/Select.antt =====
-- Which harts a mask selects, as a statement about bits, and the check loop against it.
use echelon_sbi.Base.{
  ℕ, zero, suc, ◌+◌, ◌/◌, ◌%◌, ◌^◌, ◌<◌, ◌≡◌, refl, ◌↔◌, Bool, true, false, ◌&&◌, ◌||◌, ◌==◌,
  Bool-cases, ||-cases, inl, inr, u32, arith,
}
use echelon_sbi.Base.Bits.{bit}
use echelon_sbi.Machine.{Config}
use echelon_sbi.Sbi.Valid.{is_valid_hartid}
use echelon_sbi.Sbi.HartMask.{check_loop}

-- Bit `k` of the mask stands for hart `base + k`.
abbrev pub Selects : (n mask base h : ℕ) → Type 0
Selects n mask base h = (k : ℕ) × (k < n) × (bit mask k ≡ 1) × (h ≡ u32 (base + k))

-- The same as a test, over the loops' variables.
unfoldable pub selects : (n i tmp base h : ℕ) → Bool
selects zero i tmp base h = false
selects (suc n) i tmp base h =
    (tmp % 2 == 1 && h == u32 (base + i)) || selects n (i + 1) (tmp / 2) base h

abbrev SelectsFrom : (n i tmp base h : ℕ) → Type 0
SelectsFrom n i tmp base h = (k : ℕ) × (k < n) × (bit tmp k ≡ 1) × (h ≡ u32 (base + (i + k)))

selects_sound : (n i tmp base h : ℕ) → selects n i tmp base h ≡ true → SelectsFrom n i tmp base h
unfolding selects bit
selects_sound zero i tmp base h e = absurd (ground arith)
selects_sound (suc n) i tmp base h e =
    elim (||-cases (tmp % 2 == 1 && h == u32 (base + i)) (selects n (i + 1) (tmp / 2) base h) e) [
      | inl here ↦ (0, omega arith, ground arith, ground arith)
      | inr later ↦
          let (k, lt, one, same) = selects_sound n (i + 1) (tmp / 2) base h later in
          (suc k, omega arith, one, ground arith)
    ]

selects_complete :
    (n i tmp base h k : ℕ)
    → k < n
    → bit tmp k ≡ 1
    → h ≡ u32 (base + (i + k))
    → selects n i tmp base h ≡ true
unfolding selects bit
selects_complete zero i tmp base h k lt one e = absurd (omega arith)
selects_complete (suc n) i tmp base h zero lt one e = ground arith
selects_complete (suc n) i tmp base h (suc k) lt one e =
    ground (arith, selects_complete n (i + 1) (tmp / 2) base h k)

pub selects_iff : (n mask base h : ℕ) → (selects n 0 mask base h ≡ true) ↔ Selects n mask base h
selects_iff n mask base h = (
  λ e. let (k, lt, one, same) = selects_sound n 0 mask base h e in (k, lt, one, ground arith),
  λ (k, lt, one, same). selects_complete n 0 mask base h k lt one (ground arith),
)

-- Later rounds do not come back to a hart: the ids of fewer than 2 ^ 32 rounds are distinct.
pub selects_later :
    (n i tmp base : ℕ) → n < 2 ^ 32 → selects n (i + 1) tmp base (u32 (base + i)) ≡ false
selects_later n i tmp base small = elim (Bool-cases (selects n (i + 1) tmp base (u32 (base + i)))) [
  | inl again ↦
      let (k, lt, _, same) = selects_sound n (i + 1) tmp base _ again in absurd (omega arith)
  | inr free ↦ free
]

module _ (c : Config) where
  check_loop_sound :
      (n i tmp base k : ℕ)
      → check_loop c n i tmp base ≡ true
      → k < n
      → bit tmp k ≡ 1
      → is_valid_hartid c (u32 (base + (i + k))) ≡ true
  unfolding check_loop bit
  check_loop_sound zero i tmp base k e lt one = absurd (omega arith)
  check_loop_sound (suc n) i tmp base zero e lt one = ground arith
  check_loop_sound (suc n) i tmp base (suc k) e lt one =
      ground (arith, check_loop_sound n (i + 1) (tmp / 2) base k)

  check_loop_complete :
      (n i tmp base : ℕ)
      → ((k : ℕ) → k < n → bit tmp k ≡ 1 → is_valid_hartid c (u32 (base + (i + k))) ≡ true)
      → check_loop c n i tmp base ≡ true
  unfolding check_loop bit
  check_loop_complete zero i tmp base all = refl
  check_loop_complete (suc n) i tmp base all = ground (
    arith,
    all 0,
    check_loop_complete n (i + 1) (tmp / 2) base
        (λ (k : ℕ) (lt : k < n) (one : bit (tmp / 2) k ≡ 1). ground (arith, all (suc k))),
  )

  -- The check passes exactly if every selected hart is valid.
  pub check_loop_iff :
      (n mask base : ℕ)
      → (check_loop c n 0 mask base ≡ true)
        ↔ ((h : ℕ) → Selects n mask base h → is_valid_hartid c h ≡ true)
  check_loop_iff n mask base = (
    λ e h (k, lt, one, same). ground (arith, check_loop_sound n 0 mask base k),
    λ all. check_loop_complete n 0 mask base λ k lt one. all _ (k, lt, one, ground arith),
  )
