-- ===== src/Devices/VgaConsole/Scroll.antt =====
-- The moves of cells of kernel/devices/src/vga_console.cpp: `scroll` and `clear_screen`.
use bolgenos_ng.Base.{
  ℕ, zero, suc, ◌+◌, ◌-◌, ◌*◌, ◌≤◌, ◌<◌, ◌≡◌, refl, ◌∙◌, List, arith, ◌==◌, if◌then◌else◌, length,
  get_or, ap, ap₂, subst, ◌⊎◌, inl, inr, set, length-set, get_or-set_self, get_or-set_ne, dec_lt,
  ℕ_discrete, false,
}
use bolgenos_ng.Devices.VgaConsole.{
  Cell, Console, outside, blank, screen_height, screen_width, copy_n, fill_n, shift_lines, scroll,
  clear_screen,
}

pub length-copy_n :
    (cells : List Cell) (first n result : ℕ) → length (copy_n cells first n result) ≡ length cells
unfolding copy_n
length-copy_n cells first zero result = refl
length-copy_n cells first (suc n) result =
    length-copy_n (set cells result (get_or cells first outside)) (first + 1) n (result + 1)
    ∙ length-set cells result _

pub length-fill_n :
    (cells : List Cell) (first n : ℕ) (v : Cell) → length (fill_n cells first n v) ≡ length cells
unfolding fill_n
length-fill_n cells first zero v = refl
length-fill_n cells first (suc n) v =
    length-fill_n (set cells first v) (first + 1) n v ∙ length-set cells first v

pub length-shift_lines :
    (left i : ℕ) (cells : List Cell) → length (shift_lines left i cells) ≡ length cells
unfolding shift_lines
length-shift_lines zero i cells = refl
length-shift_lines (suc left) i cells =
    length-shift_lines left (i + 1) _ ∙ length-copy_n cells ((i + 1) * 80) 80 (i * 80)

pub fill_n-outside :
    (cells : List Cell) (first n k : ℕ) (v : Cell)
    → (k < first) ⊎ (first + n ≤ k)
    → get_or (fill_n cells first n v) k outside ≡ get_or cells k outside
unfolding fill_n
fill_n-outside cells first zero k v away = refl
fill_n-outside cells first (suc n) k v away =
    fill_n-outside (set cells first v) (first + 1) n k v (ground arith)
    ∙ get_or-set_ne cells first k v outside (λ e. ground arith)

pub fill_n-inside :
    (cells : List Cell) (first n k : ℕ) (v : Cell)
    → first ≤ k
    → k < first + n
    → first + n ≤ length cells
    → get_or (fill_n cells first n v) k outside ≡ v
unfolding fill_n
fill_n-inside cells first zero k v low high fits = absurd (ground arith)
fill_n-inside cells first (suc n) k v low high fits = elim (ℕ_discrete first k) [
  | yes e ↦
      fill_n-outside (set cells first v) (first + 1) n k v (inl (omega arith))
      ∙ subst (λ t. get_or (set cells first v) t outside ≡ v) e
          (get_or-set_self cells first v outside (omega arith))
  | no ne ↦
      fill_n-inside (set cells first v) (first + 1) n k v (ground arith) (omega arith)
        (omega (arith, length-set cells first v))
]

pub copy_n-outside :
    (cells : List Cell) (first n result k : ℕ)
    → (k < result) ⊎ (result + n ≤ k)
    → get_or (copy_n cells first n result) k outside ≡ get_or cells k outside
unfolding copy_n
copy_n-outside cells first zero result k away = refl
copy_n-outside cells first (suc n) result k away =
    copy_n-outside (set cells result _) (first + 1) n (result + 1) k (ground arith)
    ∙ get_or-set_ne cells result k _ outside (λ e. ground arith)

-- A copy to a lower place reads every cell before it is written.
pub copy_n-inside :
    (cells : List Cell) (first n result i : ℕ)
    → result < first
    → i < n
    → result + n ≤ length cells
    → get_or (copy_n cells first n result) (result + i) outside ≡ get_or cells (first + i) outside
unfolding copy_n
copy_n-inside cells first zero result i down less fits = absurd (ground arith)
copy_n-inside cells first (suc n) result zero down less fits =
    let right : result + 0 ≡ result = omega arith in
    let left : first + 0 ≡ first = omega arith in
    rw (right, left)
      (copy_n-outside (set cells result _) (first + 1) n (result + 1) result (inl (omega arith))
        ∙ get_or-set_self cells result (get_or cells first outside) outside (omega arith))
copy_n-inside cells first (suc n) result (suc i) down less fits =
    let right : result + suc i ≡ result + 1 + i = omega arith in
    let left : first + suc i ≡ first + 1 + i = omega arith in
    rw (right, left)
      (copy_n-inside (set cells result (get_or cells first outside)) (first + 1) n (result + 1) i
          (omega arith) (omega arith)
          (omega (arith, length-set cells result (get_or cells first outside)))
        ∙ get_or-set_ne cells result (first + 1 + i) _ outside (λ e. ground arith))

shift_lines-outside :
    (left i k : ℕ) (cells : List Cell)
    → (k < i * 80) ⊎ ((i + left) * 80 ≤ k)
    → get_or (shift_lines left i cells) k outside ≡ get_or cells k outside
unfolding shift_lines
shift_lines-outside zero i k cells away = refl
shift_lines-outside (suc left) i k cells away =
    shift_lines-outside left (i + 1) k (copy_n cells ((i + 1) * 80) 80 (i * 80)) (ground arith)
    ∙ copy_n-outside cells ((i + 1) * 80) 80 (i * 80) k (ground arith)

shift_lines-inside :
    (left i k : ℕ) (cells : List Cell)
    → i * 80 ≤ k
    → k < (i + left) * 80
    → (i + left) * 80 ≤ length cells
    → get_or (shift_lines left i cells) k outside ≡ get_or cells (k + 80) outside
unfolding shift_lines
shift_lines-inside zero i k cells low high fits = absurd (ground arith)
shift_lines-inside (suc left) i k cells low high fits = elim (dec_lt k ((i + 1) * 80)) [
  | yes here ↦
      shift_lines-outside left (i + 1) k _ (inl here)
      ∙ subst
          (λ (a, b).
            get_or (copy_n cells ((i + 1) * 80) 80 (i * 80)) a outside ≡ get_or cells b outside)
          (ap₂ (λ a b. (a, b)) (omega arith) (omega arith))
          (copy_n-inside cells ((i + 1) * 80) 80 (i * 80) (k - i * 80) (omega arith) (omega arith)
            (omega arith))
  | no later ↦
      shift_lines-inside left (i + 1) k _ (omega arith) (omega arith)
        (omega (arith, length-copy_n cells ((i + 1) * 80) 80 (i * 80)))
      ∙ copy_n-outside cells ((i + 1) * 80) 80 (i * 80) (k + 80) (inr (omega arith))
]

-- What a screen shows after the lines have moved up by one: the last line is empty.
abbrev pub scrolled : Console → (line column : ℕ) → Cell
scrolled s line column =
    if line + 1 == screen_height
    then blank s.fg s.bg
    else get_or s.cells ((line + 1) * screen_width + column) outside

-- On a screen of 25 × 80 cells, scrolling moves each line one up and fills the last line with
-- spaces in the colours of the console.
pub scroll_lem :
    (s : Console) (line column : ℕ)
    → length s.cells ≡ screen_height * screen_width
    → line < screen_height
    → column < screen_width
    → get_or (scroll s).cells (line * screen_width + column) outside ≡ scrolled s line column
unfolding scroll
scroll_lem s line column full low narrow = elim (ℕ_discrete line 24) [
  | yes e ↦ rw e (
      fill_n-inside (shift_lines 24 0 s.cells) 1920 80 (1920 + column) (blank s.fg s.bg)
        (omega arith) (omega arith) (omega (arith, length-shift_lines 24 0 s.cells)))
  | no ne ↦
      let t : (line + 1 == 25) ≡ false = ground arith in
      rw t (
        fill_n-outside (shift_lines 24 0 s.cells) 1920 80 (line * 80 + column) (blank s.fg s.bg)
          (inl (omega arith))
        ∙ shift_lines-inside 24 0 (line * 80 + column) s.cells (omega arith) (omega arith)
            (omega arith)
        ∙ ap (λ t. get_or s.cells t outside) (omega arith))
]

pub length-scroll : (s : Console) → length (scroll s).cells ≡ length s.cells
unfolding scroll
length-scroll s =
    length-fill_n (shift_lines 24 0 s.cells) 1920 80 (blank s.fg s.bg)
    ∙ length-shift_lines 24 0 s.cells

-- On a screen of 25 × 80 cells, clearing leaves a space in the colours of the console in every
-- cell.
pub clear_screen_lem :
    (s : Console) (k : ℕ)
    → length s.cells ≡ screen_height * screen_width
    → k < screen_height * screen_width
    → get_or (clear_screen s).cells k outside ≡ blank s.fg s.bg
unfolding clear_screen
clear_screen_lem s k full less =
    fill_n-inside s.cells 0 2000 k (blank s.fg s.bg) (omega arith) less (omega arith)
