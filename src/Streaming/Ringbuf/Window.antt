-- ===== src/Streaming/Ringbuf/Window.antt =====
-- The elements that a ring holds, oldest first.
use native.Mathlib.Nat.{mod-add-mod, add-zero}
use open_vlsnr.Prelude.{
  ℕ, zero, suc, ◌+◌, ◌-◌, ◌%◌, ◌≤◌, ◌<◌, ◌≡◌, ◌≢◌, refl, sym, ap, ap₂, ◌∙◌, List, [], ◌∷◌, ◌++◌,
  arith, length, get_or, set, get_or-set_self, get_or-set_ne,
}
use open_vlsnr.Streaming.Ringbuf.Index.{add-mod-ne}

module _ {ℓ} {A : Type ℓ} (junk : A) where
  -- `n` elements from the counter `t` on.
  abbrev pub window : List A → ℕ → ℕ → ℕ → List A
  window buf size t zero = []
  window buf size t (suc n) = get_or buf (t % size) junk ∷ window buf size (t + 1) n

  pub length-window : (buf : List A) (size t n : ℕ) → length (window buf size t n) ≡ n
  length-window buf size t zero = refl
  length-window buf size t (suc n) = ap suc (length-window buf size (t + 1) n)

  -- Only the remainder of the counter counts.
  pub window_mod :
      (buf : List A) (size t t' n : ℕ)
      → t % size ≡ t' % size
      → window buf size t n ≡ window buf size t' n
  window_mod buf size t t' zero e = refl
  window_mod buf size t t' (suc n) e = ap₂ ◌∷◌ (ap (λ (i : ℕ). get_or buf i junk) e) (
      window_mod buf size (t + 1) (t' + 1) n
        (sym (mod-add-mod t size 1) ∙ ap (λ (r : ℕ). (r + 1) % size) e ∙ mod-add-mod t' size 1))

  -- Writing just past a window extends it.
  pub window-set :
      (buf : List A) (size t n i : ℕ) (x : A)
      → size ≤ length buf
      → n < size
      → i ≡ (t + n) % size
      → window (set buf i x) size t (suc n) ≡ window buf size t n ++ (x ∷ [])
  window-set buf size t zero i x room below e =
      let at : t % size ≡ i = e' in
      ap (λ y. y ∷ [])
        (ap (λ (k : ℕ). get_or (set buf i x) k junk) at ∙ get_or-set_self buf i x junk inside)
    where
      e' : t % size ≡ i
      e' = ap (λ (k : ℕ). k % size) (sym (add-zero t)) ∙ sym e

      inside : i < length buf
      inside = omega arith
  window-set buf size t (suc n) i x room below e =
      ap₂ ◌∷◌
        (get_or-set_ne buf x junk (λ h. add-mod-ne size t (suc n) (omega arith) below (sym e ∙ h)))
        (window-set buf size (t + 1) n i x room (omega arith) (e ∙ ap (λ (k : ℕ). k % size) shift))
    where
      shift : t + suc n ≡ t + 1 + n
      shift = omega arith

  -- `window` matches on `suc`, the code tests for 0.
  pub window_of_ne_zero :
      (buf : List A) (size t n : ℕ)
      → n ≢ 0
      → window buf size t n ≡ get_or buf (t % size) junk ∷ window buf size (t + 1) (n - 1)
  window_of_ne_zero buf size t zero h = absurd (h refl)
  window_of_ne_zero buf size t (suc n) h =
      ap (λ (k : ℕ). window buf size t (suc k)) (let e : n ≡ suc n - 1 = omega arith in e)
