-- ===== src/Net/Http/Response/Reply.antt =====
-- net/http.cpp: a client reads what `end` writes.
use libra_core.Common.{
  ℕ, zero, suc, ◌+◌, ◌-◌, ◌*◌, ◌/◌, ◌%◌, ◌<◌, ◌≤◌, ◌≡◌, ◌≢◌, refl, ap, sym, ◌∙◌, inl, inr, ◌&&◌,
  Option, some, none, [], ◌∷◌, ◌++◌, append_assoc, arith, length, length-append, ltb, ◌==◌,
  ltb-false→le, Bool-cases, All, if◌then◌else◌, Text, codes, All-append,
}
use libra_core.Base.CaseMap.{CaseMap}
use libra_core.Net.Http.Response.{crlf, header_lines}
use libra_core.Base.Format.{digits, decimal}

-- The number that digits write.
unfoldable pub number_of : ℕ → Text → ℕ
number_of n [] = n
number_of n (c ∷ s) = number_of (n * 10 + (c - 48)) s

digits_lem :
    (fuel n : ℕ) (after : Text) → n ≤ fuel → number_of 0 (digits fuel n after) ≡ number_of n after
unfolding number_of digits
digits_lem zero n after h = ap (λ m. number_of m after) (omega arith)
digits_lem (suc fuel) n after h = elim (Bool-cases (ltb n 10)) [
  | inl one ↦ rw one (ap (λ m. number_of m after) (omega arith))
  | inr more ↦
      rw
        (
          more,
          digits_lem fuel (n / 10) ((48 + n % 10) ∷ after) (omega (arith, ltb-false→le n 10 more)),
        )
        (ap (λ m. number_of m after) (omega arith))
]

pub number_of-decimal : (n : ℕ) → number_of 0 (decimal n) ≡ n
unfolding decimal number_of
number_of-decimal n = digits_lem n n [] (omega arith)

abbrev map_some : {A B : Type 0} → (A → B) → Option A → Option B
map_some f none = none
map_some f (some a) = some (f a)

-- What HTTP makes of a response: a line ends at CR LF, a key at a colon and a space, and an empty
-- line ends the headers.
unfoldable pub cut_line : Text → Option (Text × Text)
cut_line [] = none
cut_line (c ∷ []) = none
cut_line (c ∷ d ∷ s) =
    let rest = cut_line (d ∷ s) in
    if (c == 13) && (d == 10) then some ([], s) else map_some (λ p. (c ∷ p.0, p.1)) rest

unfoldable pub cut_key : Text → Option (Text × Text)
cut_key [] = none
cut_key (c ∷ []) = none
cut_key (c ∷ d ∷ s) =
    let rest = cut_key (d ∷ s) in
    if (c == 58) && (d == 32) then some ([], s) else map_some (λ p. (c ∷ p.0, p.1)) rest

-- The key and the value of a line, before what the other lines say.
unfoldable pub put_line : Text → Option (CaseMap × Text) → Option (CaseMap × Text)
unfolding cut_key
put_line line none = none
put_line line (some (m, after)) = map_some (λ entry. (entry ∷ m, after)) (cut_key line)

-- An empty line ends the headers.
unfoldable pub use_line : Text → Text → Option (CaseMap × Text) → Option (CaseMap × Text)
unfolding put_line
use_line [] after next = some ([], after)
use_line (c ∷ line) after next = put_line (c ∷ line) next

unfoldable pub after_line :
    (Text → Option (CaseMap × Text)) → Option (Text × Text) → Option (CaseMap × Text)
unfolding use_line
after_line next none = none
after_line next (some (line, after)) = use_line line after (next after)

-- Lines up to an empty one, at most as many as the fuel.
unfoldable pub parse_headers : ℕ → Text → Option (CaseMap × Text)
unfolding cut_line after_line
parse_headers zero s = none
parse_headers (suc fuel) s = after_line (parse_headers fuel) (cut_line s)

-- The first line, and then the headers.
unfoldable pub parse_from : ℕ → Option (Text × Text) → Option (Text × (CaseMap × Text))
unfolding parse_headers
parse_from fuel none = none
parse_from fuel (some (line, after)) = map_some (λ p. (line, p)) (parse_headers fuel after)

unfoldable pub parse_response : Text → Option (Text × (CaseMap × Text))
unfolding cut_line parse_from
parse_response s = parse_from (length s) (cut_line s)

-- No carriage return; and in a key no colon.
abbrev pub IsPlain : Text → Type 0
IsPlain s = All (λ c. c ≢ 13) s

abbrev pub IsKey : Text → Type 0
IsKey s = All (λ c. (c ≢ 13) × (c ≢ 58)) s

abbrev pub IsSendable : CaseMap → Type 0
IsSendable m = All (λ (p : Text × Text). IsKey p.0 × IsPlain p.1) m

cut_line-plain : (s more : Text) → IsPlain s → cut_line (s ++ (crlf ++ more)) ≡ some (s, more)
unfolding cut_line
cut_line-plain [] more h = refl
cut_line-plain (c ∷ []) more h = ground arith
cut_line-plain (c ∷ d ∷ s) more h = ground (arith, cut_line-plain (d ∷ s) more)

cut_key-plain : (s more : Text) → IsKey s → cut_key (s ++ (codes ": " ++ more)) ≡ some (s, more)
unfolding cut_key
cut_key-plain [] more h = refl
cut_key-plain (c ∷ []) more h = ground arith
cut_key-plain (c ∷ d ∷ s) more h = ground (arith, cut_key-plain (d ∷ s) more)

key-IsPlain : (s : Text) → IsKey s → IsPlain s
key-IsPlain [] h = tt
key-IsPlain (c ∷ s) h = (h.0.0, key-IsPlain s h.1)

use_line-entry :
    (k v after : Text) (next : Option (CaseMap × Text))
    → use_line (k ++ (codes ": " ++ v)) after next ≡ put_line (k ++ (codes ": " ++ v)) next
unfolding use_line
use_line-entry [] v after next = refl
use_line-entry (c ∷ k) v after next = refl

line-IsPlain : (k v : Text) → IsKey k → IsPlain v → IsPlain (k ++ (codes ": " ++ v))
line-IsPlain k v hk hv =
    All-append (λ c. c ≢ 13) k (codes ": " ++ v) (key-IsPlain k hk) (omega arith, (omega arith, hv))

lines-append :
    (k v rest more : Text)
    → (k ++ (codes ": " ++ (v ++ (crlf ++ rest)))) ++ more
      ≡ (k ++ (codes ": " ++ v)) ++ (crlf ++ (rest ++ more))
lines-append k v rest more =
    append_assoc k (codes ": " ++ (v ++ (crlf ++ rest))) more
    ∙ ap (λ z. k ++ (codes ": " ++ z)) (append_assoc v (crlf ++ rest) more)
    ∙ sym (append_assoc k (codes ": " ++ v) (crlf ++ (rest ++ more)))

pub parse_headers-lines :
    (fuel : ℕ) (m : CaseMap) (body : Text)
    → IsSendable m
    → length m < fuel
    → parse_headers fuel (header_lines m ++ (crlf ++ body)) ≡ some (m, body)
unfolding parse_headers header_lines after_line put_line
parse_headers-lines zero m body h small = absurd (omega arith)
parse_headers-lines (suc fuel) [] body h small = unfold cut_line in refl
parse_headers-lines (suc fuel) ((k, v) ∷ m) body h small =
    rw
      (
        lines-append k v (header_lines m) (crlf ++ body),
        cut_line-plain (k ++ (codes ": " ++ v)) (header_lines m ++ (crlf ++ body))
            (line-IsPlain k v h.0.0 h.0.1),
        use_line-entry k v,
        parse_headers-lines fuel m body h.1 (omega arith),
        cut_key-plain k v h.0.0,
      )
      refl

header_lines-longer : (m : CaseMap) → length m ≤ length (header_lines m)
unfolding header_lines
header_lines-longer [] = omega arith
header_lines-longer ((k, v) ∷ m) = omega (
  arith,
  header_lines-longer m,
  length-append k (codes ": " ++ (v ++ (crlf ++ header_lines m))),
  length-append v (crlf ++ header_lines m),
)

-- A whole response is read back.
pub parse_response-text :
    (line : Text) (m : CaseMap) (body : Text)
    → IsPlain line
    → IsSendable m
    → parse_response (line ++ (crlf ++ (header_lines m ++ (crlf ++ body)))) ≡ some (line, (m, body))
unfolding parse_response parse_from
parse_response-text line m body h hm =
    rw
      (
        cut_line-plain line (header_lines m ++ (crlf ++ body)) h,
        parse_headers-lines (length (line ++ (crlf ++ (header_lines m ++ (crlf ++ body))))) m body
            hm
            (omega (
              arith,
              header_lines-longer m,
              length-append line (crlf ++ (header_lines m ++ (crlf ++ body))),
              length-append (header_lines m) (crlf ++ body),
            )),
      )
      refl
