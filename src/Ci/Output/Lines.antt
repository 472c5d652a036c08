-- ===== src/Ci/Output/Lines.antt =====
-- What a request comes to is told apart by what it raises, and the reasons that are printed are short
-- lines.
use hilforge.Base.{
  ◌⊎◌, ◌<◌, ℕ, zero, suc, ◌≤◌, ◌≡◌, ◌≢◌, false, Option, none, some, List, [], ◌∷◌, take, length,
  All, All-map, All-imp, All-intro, All-append, arith, Bool-cases, inl, inr, str_eq, order_by,
  subst, some-injective, String,
}
use hilforge.Text.{Codes, codes, words, join, is_space}
use hilforge.Text.Split.{words-black}
use hilforge.Domain.Json.{Json, str, obj, field, end}
use hilforge.Runs.Read.{TestJobRead}
use hilforge.Ci.Output.{
  Answer, Exchange, timed_out, request_error, response, Requested, returns_json, raises, api_error,
  invalid_json, request_timed_out, server_unavailable, JobLine, job_line, concise, summary_lines,
  by_device_name,
}

abbrev pub IsOneLine : ℕ → Codes → Type 0
IsOneLine most text = (length text ≤ most) × All (λ c. c ≢ b'\n') text

module _ {ℓ} {A : Type ℓ} where
  length-take : (n : ℕ) (xs : List A) → length (take n xs) ≤ n
  length-take zero xs = omega arith
  length-take (suc n) [] = omega arith
  length-take (suc n) (x ∷ xs) = omega (arith, length-take n xs)

  All-take {κ} : (P : A → Type κ) (n : ℕ) (xs : List A) → All P xs → All P (take n xs)
  All-take P zero xs h = tt
  All-take P (suc n) [] h = tt
  All-take P (suc n) (x ∷ xs) h = (h.0, All-take P n xs h.1)

black-same_line : (c : ℕ) → is_space c ≡ false → c ≢ b'\n'
unfolding is_space
black-same_line c black e = ground arith

All-join :
    (ws : List Codes) → All (All (λ c. is_space c ≡ false)) ws → All (λ c. c ≢ b'\n') (join b' ' ws)
unfolding join
All-join [] h = tt
All-join (w ∷ []) h = All-imp _ _ w black-same_line h.0
All-join (w ∷ v ∷ ws) h =
    All-append _ w (b' ' ∷ join b' ' (v ∷ ws)) (All-imp _ _ w black-same_line h.0)
      ((λ e. omega (arith, e)), All-join (v ∷ ws) h.1)

-- What the reason of an API error is: one short line, which is the reason phrase of a response
-- without a document and the detail of a document `{"detail": …}`, if these are short lines themselves.
abbrev pub IsReasonOf : (Json → Codes) → Answer → Codes → Type 0
IsReasonOf to_str answer reason =
    IsOneLine 240 reason
    × (answer.document ≡ none → IsOneLine 240 answer.reason_phrase → reason ≡ answer.reason_phrase)
    × ((text : String)
        → answer.document ≡ some (obj (field "detail" (str text) end))
        → str_eq text "" ≡ false
        → IsOneLine 240 (to_str (str text))
        → reason ≡ to_str (str text))

-- What a request came to, by what is made of it: a document is that of a response without an error
-- status, and every message has its own cause.
abbrev pub Explains : (Json → Codes) → Exchange → Requested → Type 0
Explains to_str exchange (returns_json body) =
    (answer : Answer) × (exchange ≡ response answer)
    × (answer.status_code < 400 ⊎ 599 < answer.status_code)
    × (answer.document ≡ some body)
Explains to_str exchange (raises request_timed_out) = (exchange ≡ timed_out)
Explains to_str exchange (raises (server_unavailable kind)) = (exchange ≡ request_error kind)
Explains to_str exchange (raises invalid_json) =
    (answer : Answer) × (exchange ≡ response answer)
    × (answer.status_code < 400 ⊎ 599 < answer.status_code)
    × (answer.document ≡ none)
Explains to_str exchange (raises (api_error code reason)) =
    (answer : Answer) × (exchange ≡ response answer)
    × (answer.status_code ≡ code)
    × (400 ≤ code)
    × (code ≤ 599)
    × IsReasonOf to_str answer reason

-- The reason of a line, if it has one, is one short line.
abbrev pub HasReason : JobLine → Type 0
HasReason line = (reason : Codes) → line.reason ≡ some reason → IsOneLine 160 reason

concise-IsOneLine :
    (message : Option String) (reason : Codes)
    → concise message ≡ some reason
    → IsOneLine 160 reason
unfolding concise
concise-IsOneLine none reason e = cc
concise-IsOneLine (some message) reason e = elim (Bool-cases (str_eq message "")) [
  | inl empty ↦ let absent : none ≡ some reason = rw empty at e in cc
  | inr given ↦
      let text = words (codes message) in
      subst (IsOneLine 160) (some-injective _ _ (rw given at e)) (
        length-take 160 (join b' ' text),
        All-take _ 160 _ (All-join text (words-black (codes message))),
      )
]

-- The reason of a line of the summary, if it has one, has at most 160 characters and no line feed.
pub summary_lines-HasReason : (jobs : List TestJobRead) → All HasReason (summary_lines jobs)
unfolding summary_lines job_line
summary_lines-HasReason jobs = All-map HasReason job_line (order_by by_device_name jobs) (
    All-intro (λ j. HasReason (job_line j)) (order_by by_device_name jobs)
      (λ j. concise-IsOneLine j.error_message))
