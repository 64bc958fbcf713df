-- ===== src/Reports/Names.antt =====
-- The names of the files of one test.
use msg_perf_tool.Base.{
  ℕ, zero, suc, ◌+◌, ◌-◌, ◌≤◌, ◌≡◌, ◌≢◌, refl, ap, sym, ◌∙◌, [], ◌∷◌, ◌++◌, length, length-append,
  Bytes, take, c_string, arith,
}
use msg_perf_tool.Reports.{Naming, file_name}

take_all : (n : ℕ) (bs : Bytes) → length bs ≤ n → take n bs ≡ bs
take_all zero [] h = refl
take_all zero (b ∷ bs) h = absurd (omega arith)
take_all (suc n) [] h = refl
take_all (suc n) (b ∷ bs) h = ap (◌∷◌ b) (take_all n bs (omega arith))

append_cancel : (xs ys zs : Bytes) → xs ++ ys ≡ xs ++ zs → ys ≡ zs
append_cancel [] ys zs h = h
append_cancel (x ∷ xs) ys zs h = append_cancel xs ys zs (cc)

pub heads-ne : (b c : ℕ) (xs ys : Bytes) → b ≢ c → b ∷ xs ≢ c ∷ ys
heads-ne b c xs ys ne h = let same : b ≡ c = cc h in ne same

-- The name fits the buffer.
abbrev pub Fits : ℕ → Naming → Bytes → Type 0
Fits filename_max nm end = length (c_string nm.source) + length end + 3 ≤ filename_max

-- Two names with different ends that both fit are different.
pub names-ne :
    (filename_max : ℕ) (nm : Naming) (base base' suffix suffix' : Bytes)
    → Fits filename_max nm (base ++ suffix)
    → Fits filename_max nm (base' ++ suffix')
    → base ++ suffix ≢ base' ++ suffix'
    → file_name filename_max nm base suffix ≢ file_name filename_max nm base' suffix'
unfolding file_name
names-ne filename_max nm base base' suffix suffix' h h' ne e =
    let source = c_string nm.source in
    let whole =
      take_all (filename_max - 2) (source ++ b'-' ∷ (base ++ suffix))
        (omega (arith, length-append source (b'-' ∷ (base ++ suffix)))) in
    let whole' =
      take_all (filename_max - 2) (source ++ b'-' ∷ (base' ++ suffix'))
        (omega (arith, length-append source (b'-' ∷ (base' ++ suffix')))) in
    let same =
      append_cancel source (b'-' ∷ (base ++ suffix)) (b'-' ∷ (base' ++ suffix'))
        (sym whole ∙ e ∙ whole') in
    let same' : base ++ suffix ≡ base' ++ suffix' = cc same in ne same'
