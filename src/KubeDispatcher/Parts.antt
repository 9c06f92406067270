-- ===== src/KubeDispatcher/Parts.antt =====
-- The texts that the names of objects are made of: their characters, lengths and ends
-- (`sanitize_k8s_name` and `truncate_with_hash` of coordinator/src/kube_dispatcher.rs).
use jefferies.Prelude.{
  ℕ, zero, suc, ◌+◌, ◌≤◌, Str, bytes, ◌≡◌, refl, sym, ap, ◌∙◌, Bool, true, false, not, ◌&&◌, ◌||◌,
  [], ◌∷◌, ◌++◌, length, all, any, is_empty, leb, nat_beq, is_ascii_alphanumeric, arith,
  if◌then◌else◌,
}
use jefferies.Pipelines.Names.{is_alnum, last, is_valid_dns1123_label}
use jefferies.KubeDispatcher.{dash, sanitized_chars, trim_start, trim_end, sanitize_k8s_name, take}

abbrev pub name_char : ℕ → Bool
name_char c = is_alnum c || nat_beq c b'-'

abbrev starts : Str → Bool
starts [] = false
starts (c ∷ s) = is_alnum c

abbrev pub ends : Str → Bool
ends [] = false
ends (c ∷ s) = is_alnum (last c s)

pub label_parts :
    (s : Str)
    → is_valid_dns1123_label s ≡ (leb (length s) 63 && (starts s && (ends s && all name_char s)))
unfolding is_valid_dns1123_label
label_parts [] = refl
label_parts (b ∷ bs) = ground arith

pub all-append : (s t : Str) → all name_char (s ++ t) ≡ (all name_char s && all name_char t)
all-append [] t = refl
all-append (c ∷ s) t = ground (arith, all-append s t)

last-append : (b c : ℕ) (s t : Str) → last b (s ++ c ∷ t) ≡ last c t
last-append b c [] t = refl
last-append b c (d ∷ s) t = last-append d c s t

pub ends-tail : (s : Str) (c : ℕ) (t : Str) → ends (s ++ c ∷ t) ≡ is_alnum (last c t)
ends-tail [] c t = refl
ends-tail (d ∷ s) c t = ap is_alnum (last-append d c s t)

last-dash : (c : ℕ) (s t : Str) → is_alnum (last c ((s ++ bytes "-") ++ t)) ≡ ends t
last-dash c [] [] = refl
last-dash c [] (d ∷ t) = refl
last-dash c (d ∷ s) t = last-dash d s t

-- The end of a text behind a dash.
pub ends-append : (s t : Str) → ends ((s ++ bytes "-") ++ t) ≡ ends t
ends-append [] [] = refl
ends-append [] (d ∷ t) = refl
ends-append (c ∷ s) t = last-dash c s t

chars_all : (s : Str) → all name_char (sanitized_chars s) ≡ true
unfolding sanitized_chars
chars_all [] = refl
chars_all (c ∷ s) = ground (arith, chars_all s)

chars_any : (s : Str) → any is_alnum (sanitized_chars s) ≡ any is_ascii_alphanumeric s
unfolding sanitized_chars
chars_any [] = refl
chars_any (c ∷ s) = ground (arith, chars_any s)

trim_start-all : (s : Str) → all name_char s ≡ true → all name_char (trim_start s) ≡ true
unfolding trim_start
trim_start-all [] h = refl
trim_start-all (c ∷ s) h = ground (arith, trim_start-all s)

any-trim_start : (s : Str) → any is_alnum (trim_start s) ≡ any is_alnum s
unfolding trim_start
any-trim_start [] = refl
any-trim_start (c ∷ s) = ground (arith, any-trim_start s)

pub trim_end-all : (s : Str) → all name_char s ≡ true → all name_char (trim_end s) ≡ true
unfolding trim_end
trim_end-all [] h = refl
trim_end-all (c ∷ s) h = ground (arith, trim_end-all s)

pub length-trim_end : (s : Str) → length (trim_end s) ≤ length s
unfolding trim_end
length-trim_end [] = omega arith
length-trim_end (c ∷ s) = ground (arith, length-trim_end s)

pub length-take : (n : ℕ) (s : Str) → length (take n s) ≤ n
length-take zero s = omega arith
length-take (suc n) [] = omega arith
length-take (suc n) (c ∷ s) = omega (arith, length-take n s)

pub take-all : (n : ℕ) (s : Str) → all name_char s ≡ true → all name_char (take n s) ≡ true
take-all zero s h = refl
take-all (suc n) [] h = refl
take-all (suc n) (c ∷ s) h = ground (arith, take-all n s)

-- One more character in front of a text whose end is trimmed.
trimmed_step :
    (c : ℕ) (r : Str) (b : Bool)
    → name_char c ≡ true
    → ends r ≡ not (is_empty r)
    → b ≡ not (is_empty r)
    → (ends (if nat_beq c dash && is_empty r then [] else c ∷ r)
        ≡ not (is_empty (if nat_beq c dash && is_empty r then [] else c ∷ r)))
      × ((is_alnum c || b) ≡ not (is_empty (if nat_beq c dash && is_empty r then [] else c ∷ r)))
trimmed_step c [] b n e a = (ground arith, ground arith)
trimmed_step c (d ∷ r) b n e a = (ground arith, ground arith)

-- A text of such characters without dashes at its end ends in a letter or a digit, or is empty.
trim_end-ends :
    (s : Str)
    → all name_char s ≡ true
    → (ends (trim_end s) ≡ not (is_empty (trim_end s)))
      × (any is_alnum s ≡ not (is_empty (trim_end s)))
unfolding trim_end
trim_end-ends [] h = (refl, refl)
trim_end-ends (c ∷ s) h =
    let (e, a) = trim_end-ends s (ground arith) in
    trimmed_step c (trim_end s) (any is_alnum s) (ground arith) e a

pub take_exact : (n : ℕ) (s : Str) → n ≤ length s → length (take n s) ≡ n
take_exact zero s h = refl
take_exact (suc n) [] h = omega arith
take_exact (suc n) (c ∷ s) h = omega (arith, take_exact n s (omega arith))

pub alnum_name : (s : Str) → all is_alnum s ≡ true → all name_char s ≡ true
alnum_name [] h = refl
alnum_name (c ∷ s) h = ground (arith, alnum_name s)

alnum_ends : (c : ℕ) (s : Str) → all is_alnum (c ∷ s) ≡ true → is_alnum (last c s) ≡ true
alnum_ends c [] h = ground arith
alnum_ends c (d ∷ s) h = alnum_ends d s (ground arith)

pub nonempty_ends : (s : Str) → all is_alnum s ≡ true → length s ≡ 8 → ends s ≡ true
nonempty_ends [] h l = ground arith
nonempty_ends (c ∷ s) h l = alnum_ends c s h

module _ (s : Str) where
  pub sanitized_all : all name_char (sanitize_k8s_name s) ≡ true
  unfolding sanitize_k8s_name
  sanitized_all =
      trim_end-all (trim_start (sanitized_chars s))
        (trim_start-all (sanitized_chars s) (chars_all s))

  pub sanitized_ends : ends (sanitize_k8s_name s) ≡ any is_ascii_alphanumeric s
  unfolding sanitize_k8s_name
  sanitized_ends =
      let (e, a) =
        trim_end-ends (trim_start (sanitized_chars s))
          (trim_start-all (sanitized_chars s) (chars_all s)) in
      e ∙ sym a ∙ any-trim_start (sanitized_chars s) ∙ chars_any s

  pub sanitized_any : is_empty (sanitize_k8s_name s) ≡ false → any is_ascii_alphanumeric s ≡ true
  unfolding sanitize_k8s_name
  sanitized_any h =
      let (e, a) =
        trim_end-ends (trim_start (sanitized_chars s))
          (trim_start-all (sanitized_chars s) (chars_all s)) in
      sym (chars_any s) ∙ sym (any-trim_start (sanitized_chars s)) ∙ a ∙ rw h refl

pub long_nonempty : (s : Str) (n : ℕ) → leb (length s) (n + 1 + 8) ≡ false → is_empty s ≡ false
long_nonempty [] n h = ground arith
long_nonempty (c ∷ s) n h = refl
