-- ===== src/Net/Http/Response/Sending.antt =====
-- net/http.cpp: `response::end` on every status.
use libra_core.Common.{
  ◌^◌, ℕ, zero, suc, ◌+◌, ◌/◌, ◌%◌, ◌≡◌, ◌≢◌, refl, subst, sym, ◌∙◌, inl, inr, Bool, true, false,
  Option, some, none, List, [], ◌∷◌, ◌++◌, arith, Outcome, done, throw, fault, length, ltb, ◌==◌,
  Bool-cases, if◌then◌else◌, Text, codes, String, All-append, if-true, unsupported_status, ◌<◌,
  lt→ltb, take_all,
}
use libra_core.Common.{ℤ, pos, negsuc}
use libra_core.Base.CaseMap.{CaseMap, find, insert, ci_less}
use libra_core.Base.CaseMap.Lookup.{find-insert_same}
use libra_core.Net.Http.Status.{get_status_text, text_in, status_texts}
use libra_core.Net.Http.Response.{
  Response, status_line, set_length, end, add_length, response_text, set_header, write_text, Wire,
}
use libra_core.Base.Format.{digits, decimal, print_int}
use libra_core.Net.Http.Response.Reply.{
  IsPlain, IsKey, IsSendable, parse_response, parse_response-text, number_of, number_of-decimal,
}

-- A text without a carriage return, as a test.
abbrev pub plain : Text → Bool
plain [] = true
plain (c ∷ s) = let rest = plain s in if c == 13 then false else rest

pub plain→IsPlain : (s : Text) → plain s ≡ true → IsPlain s
plain→IsPlain [] h = tt
plain→IsPlain (c ∷ s) h = ground (arith, plain→IsPlain s)

abbrev all_plain : List (ℕ × String) → Bool
all_plain [] = true
all_plain ((n, s) ∷ rest) = let others = all_plain rest in if plain (codes s) then others else false

abbrev IsPlainText : Outcome Text → Type 0
IsPlainText (done s) = IsPlain s
IsPlainText (throw x) = Unit
IsPlainText fault = Unit

text_in-IsPlain :
    (table : List (ℕ × String)) (n : ℕ) → all_plain table ≡ true → IsPlainText (text_in table n)
unfolding text_in
text_in-IsPlain [] n h = tt
text_in-IsPlain ((m, s) ∷ rest) n h = elim (Bool-cases (plain (codes s))) [
  | inl good ↦ elim (Bool-cases (n == m)) [
    | inl here ↦ rw here (plain→IsPlain (codes s) good)
    | inr there ↦ rw there (text_in-IsPlain rest n (sym (if-true (plain (codes s)) _ _ good) ∙ h))
  ]
  | inr bad ↦ absurd (ground arith)
]

digits-IsPlain : (fuel n : ℕ) (after : Text) → IsPlain after → IsPlain (digits fuel n after)
unfolding digits
digits-IsPlain zero n after h = (omega arith, h)
digits-IsPlain (suc fuel) n after h = elim (Bool-cases (ltb n 10)) [
  | inl one ↦ rw one (omega arith, h)
  | inr more ↦ rw more (digits-IsPlain fuel (n / 10) ((48 + n % 10) ∷ after) (omega arith, h))
]

decimal-IsPlain : (n : ℕ) → IsPlain (decimal n)
unfolding decimal
decimal-IsPlain n = digits-IsPlain n n [] tt

-- A supported status has a line of its own.
status_line-IsPlain :
    (status : ℤ) (reason : Text)
    → get_status_text status ≡ done reason
    → IsPlain (status_line status reason)
unfolding get_status_text status_line print_int
status_line-IsPlain (negsuc n) reason h = cc
status_line-IsPlain (pos n) reason h =
    All-append (λ c. c ≢ 13) (codes "HTTP/1.1 ") (decimal n ++ (codes " " ++ reason))
      (plain→IsPlain (codes "HTTP/1.1 ") refl)
      (All-append (λ c. c ≢ 13) (decimal n) (codes " " ++ reason) (decimal-IsPlain n)
        (omega arith, subst IsPlainText h (text_in-IsPlain status_texts n refl)))

pub insert-IsSendable :
    (key value : Text) (m : CaseMap)
    → IsKey key
    → IsPlain value
    → IsSendable m
    → IsSendable (insert key value m)
unfolding insert
insert-IsSendable key value [] hk hv h = ((hk, hv), tt)
insert-IsSendable key value ((k, v) ∷ m) hk hv h = elim (Bool-cases (ci_less key k)) [
  | inl below ↦ rw below ((hk, hv), h)
  | inr past ↦ elim (Bool-cases (ci_less k key)) [
    | inl above ↦ rw (past, above) (h.0, insert-IsSendable key value m hk hv h.1)
    | inr same ↦ rw (past, same) ((h.0.0, hv), h.1)
  ]
]

abbrev pub length_key : Text
length_key = codes "Content-Length"

length_key-IsKey : IsKey length_key
length_key-IsKey = omega arith

-- What the length header says: what the program has set, or else the length of the body.
abbrev pub stated : Option Text → Text → Text
stated none body = decimal (length body)
stated (some v) body = v

add_length-headers :
    (o : Option Text) (body : Text) (r : Response)
    → o ≡ find length_key r.headers
    → IsSendable r.headers
    → IsSendable (add_length o body r).headers
      × (find length_key (add_length o body r).headers ≡ some (stated o body))
unfolding add_length set_header
add_length-headers none body r e h = (
  insert-IsSendable length_key (decimal (length body)) r.headers length_key-IsKey
      (decimal-IsPlain (length body)) h,
  find-insert_same length_key length_key (decimal (length body)) r.headers refl,
)
add_length-headers (some v) body r e h = (h, sym e)

add_length-status :
    (o : Option Text) (body : Text) (r : Response) → (add_length o body r).status ≡ r.status
unfolding add_length set_header
add_length-status none body r = refl
add_length-status (some v) body r = refl

-- A length that stays an int.
pub write_text-whole :
    (text : Text) (w : Wire)
    → length text < 2 ^ 31
    → write_text true text w ≡ (done true, (w.0, w.1 ++ (text ∷ [])))
unfolding write_text
write_text-whole text w small =
    rw (same, lt→ltb (length text) (2 ^ 31) small, take_all (length text) text (omega arith)) refl
  where
    same : length text % 2 ^ 32 ≡ length text
    same = omega arith

-- A client that reads the text of a response with a supported status and sendable headers, which
-- `end` writes, gets its status line, its headers and its body, where the whole text is shorter than
-- 2 GiB, so that its length is an int; a length header that the program has set is kept, and else
-- the header's digits are the length of the body. With any other status `end` throws and writes
-- nothing.
pub end-reply :
    (body : Text) (r : Response) (sent : List Text)
    → IsSendable r.headers
    → ((reason : Text)
        → get_status_text r.status ≡ done reason
        → length (response_text (set_length body r) reason body) < 2 ^ 31
        → (text : Text) × (end true body (r, sent)
            ≡ (done true, (set_length body r, sent ++ (text ∷ []))))
          × (parse_response text
              ≡ some (status_line r.status reason, ((set_length body r).headers, body))))
      × (find length_key (set_length body r).headers
          ≡ some (stated (find length_key r.headers) body))
      × (number_of 0 (stated none body) ≡ length body)
      × (get_status_text r.status ≡ throw unsupported_status
          → end true body (r, sent) ≡ (throw unsupported_status, (set_length body r, sent)))
unfolding end set_length
end-reply body r sent h = (
  λ reason ok small. (
    response_text (set_length body r) reason body,
    rw ok (
        write_text-whole (response_text (set_length body r) reason body) (set_length body r, sent)
          small),
    unfold response_text in
        rw (add_length-status (find length_key r.headers) body r) (
          parse_response-text (status_line r.status reason) (set_length body r).headers body
            (status_line-IsPlain r.status reason ok) lengthened.0),
  ),
  lengthened.1,
  number_of-decimal (length body),
  λ bad. rw bad refl,
)
  where
    lengthened :
        IsSendable (set_length body r).headers
        × (find length_key (set_length body r).headers
            ≡ some (stated (find length_key r.headers) body))
    lengthened = add_length-headers (find length_key r.headers) body r refl h
