-- ===== src/Proxy/Forwarder/Outcome.antt =====
-- What `forward_to_system_a` reports, and when it reports anything.
use open_yzj.Prelude.{
  All, Bool, Bool-cases, Exc, List, Option, Result, [], all, ap, arith, false, inl, inr, leb,
  length, ltb, map, none, ok, raise, refl, some, suc, true, ℕ, ◌&&◌, ◌==◌, ◌>>=◌, ◌||◌, ◌∷◌, ◌≡◌,
  ◌≤◌, ◌⊎◌,
}
use open_yzj.Value.{Fields, Value, arr, bool, get, int, null, num, obj, str, truthy}
use open_yzj.Value.Methods.{Codec, text_of}
use open_yzj.Proxy.Forwarder.Payload.{build_system_a_payloads, resolve_parsed}
use open_yzj.Proxy.Forwarder.Envelope.{build_system_a_payloads-IsEnvelope}
use open_yzj.Proxy.Forwarder.Send.{
  ForwardResult, Response, SendResult, by_body, by_status, errors_of, forward_to_system_a,
  merge_results, read_response, send_all,
}

-- A success has no error.
abbrev pub IsClean : SendResult → Type 0
IsClean r = r.succeeded ≡ true → r.error ≡ none

by_body-IsClean : (c : Codec) (resp : Response) (body : Fields) → IsClean (by_body c resp body)
unfolding by_body
by_body-IsClean c resp body h = rw h

by_status-IsClean : (resp : Response) → IsClean (by_status resp)
unfolding by_status
by_status-IsClean resp h = rw h

read_body-IsClean :
    (c : Codec) (resp : Response) (j : Result Value)
    → IsClean (elim j [ ok (obj body) ↦ by_body c resp body | _ ↦ by_status resp ])
read_body-IsClean c resp (raise e) = by_status-IsClean resp
read_body-IsClean c resp (ok (obj body)) = by_body-IsClean c resp body
read_body-IsClean c resp (ok _) = by_status-IsClean resp

read_response-IsClean : (c : Codec) (answer : Result Response) → IsClean (read_response c answer)
unfolding read_response
read_response-IsClean c (raise e) = λ h. cc
read_response-IsClean c (ok resp) = read_body-IsClean c resp resp.json

errors_of_clean :
    (rs : List SendResult)
    → All IsClean rs
    → all (λ (x : SendResult). x.succeeded) rs ≡ true
    → errors_of rs ≡ []
unfolding errors_of
errors_of_clean [] clean done = refl
errors_of_clean (r ∷ rs) (clean, more) done = ground (arith, clean, errors_of_clean rs more)

-- whether an answer is good: a dict that says so, or else a status of success
abbrev pub is_good_status : Response → Bool
is_good_status resp = leb 200 resp.status_code && ltb resp.status_code 300

abbrev pub is_good : Codec → Result Response → Bool
is_good c (raise e) = false
is_good c (ok resp) = elim resp.json [
  | ok (obj body) ↦ truthy (get "success" body) || (text_of c (get "code" body) == "200")
  | _ ↦ is_good_status resp
]

-- the status that an answer came with
abbrev pub status_of : Result Response → Option ℕ
status_of (raise e) = none
status_of (ok resp) = some resp.status_code

abbrev pub first_status : List (Result Response) → Option ℕ
first_status [] = none
first_status (a ∷ rest) = status_of a

read_body-is_good :
    (c : Codec) (resp : Response) (j : Result Value)
    → (let r : SendResult = elim j [ ok (obj body) ↦ by_body c resp body | _ ↦ by_status resp ] in
        r.succeeded ≡ elim j [
          | ok (obj body) ↦ truthy (get "success" body) || (text_of c (get "code" body) == "200")
          | _ ↦ is_good_status resp
        ])
unfolding by_body by_status
read_body-is_good c resp (raise e) = refl
read_body-is_good c resp (ok null) = refl
read_body-is_good c resp (ok (bool b)) = refl
read_body-is_good c resp (ok (int n)) = refl
read_body-is_good c resp (ok (num n)) = refl
read_body-is_good c resp (ok (str s)) = refl
read_body-is_good c resp (ok (arr vs)) = refl
read_body-is_good c resp (ok (obj body)) = refl

read_response-is_good :
    (c : Codec) (a : Result Response) → (read_response c a).succeeded ≡ is_good c a
unfolding read_response
read_response-is_good c (raise e) = refl
read_response-is_good c (ok resp) = read_body-is_good c resp resp.json

read_body-status :
    (c : Codec) (resp : Response) (j : Result Value)
    → (let r : SendResult = elim j [ ok (obj body) ↦ by_body c resp body | _ ↦ by_status resp ] in
        r.status_code ≡ some resp.status_code)
unfolding by_body by_status
read_body-status c resp (raise e) = refl
read_body-status c resp (ok null) = refl
read_body-status c resp (ok (bool b)) = refl
read_body-status c resp (ok (int n)) = refl
read_body-status c resp (ok (num n)) = refl
read_body-status c resp (ok (str s)) = refl
read_body-status c resp (ok (arr vs)) = refl
read_body-status c resp (ok (obj body)) = refl

read_response-status :
    (c : Codec) (a : Result Response) → (read_response c a).status_code ≡ status_of a
unfolding read_response
read_response-status c (raise e) = refl
read_response-status c (ok resp) = read_body-status c resp resp.json

all-is_good :
    (c : Codec) (answers : List (Result Response))
    → all (λ (x : SendResult). x.succeeded) (map (read_response c) answers)
      ≡ all (is_good c) answers
all-is_good c [] = refl
all-is_good c (a ∷ more) = rw (read_response-is_good c a, all-is_good c more) refl

answers-IsClean :
    (c : Codec) (answers : List (Result Response)) → All IsClean (map (read_response c) answers)
answers-IsClean c [] = tt
answers-IsClean c (a ∷ more) = (read_response-IsClean c a, answers-IsClean c more)

-- What is reported of the answers to at least one payload.
pub record Tells (c : Codec) (url : Value) (answers : List (Result Response)) (f : ForwardResult)
    : Type 0 where
  pub every : f.succeeded ≡ all (is_good c) answers
  pub status : f.status_code ≡ first_status answers
  pub quiet : (f.error ≡ none) ⊎ (f.succeeded ≡ false)
  pub target : f.target_url ≡ url

merge_results-Tells :
    (c : Codec) (url : Value) (answers : List (Result Response))
    → 1 ≤ length answers
    → (f : ForwardResult) × (merge_results url (map (read_response c) answers) ≡ ok f)
      × Tells c url answers f
unfolding merge_results
merge_results-Tells c url [] h = absurd (omega arith)
merge_results-Tells c url (a ∷ more) h = (
  _,
  refl,
  record {
    every = all-is_good c (a ∷ more);
    status = read_response-status c a;
    quiet =
        elim (Bool-cases
          (all (λ (x : SendResult). x.succeeded) (map (read_response c) (a ∷ more)))) [
            | inl done ↦ inl (
                rw
                  (errors_of_clean (map (read_response c) (a ∷ more)) (answers-IsClean c (a ∷ more))
                    done)
                  refl)
            | inr failed ↦ inr failed
          ];
    target = refl;
  },
)

module _ {W : Type 0} (post : W → Value → Fields → Result Response × W) where
  -- The requests to a URL, one with each payload in order: their answers, and the world that each
  -- finds and leaves.
  abbrev pub Posted : Value → List Fields → List (Result Response) → W → W → Type 0
  Posted url [] [] w after = after ≡ w
  Posted url (p ∷ ps) (a ∷ answers) w after =
      (a ≡ (post w url p).0) × Posted url ps answers (post w url p).1 after
  Posted url _ _ w after = ⊥

  send_all-Posted :
      (c : Codec) (url : Value) (ps : List Fields) (w : W)
      → (answers : List (Result Response)) × ((send_all post c url ps w).0
          ≡ map (read_response c) answers)
        × Posted url ps answers w (send_all post c url ps w).1
        × (length answers ≡ length ps)
  unfolding send_all
  send_all-Posted c url [] w = ([], refl, refl, refl)
  send_all-Posted c url (p ∷ ps) w =
      let (answers, read, went, count) = send_all-Posted c url ps (post w url p).1 in
      (
        (post w url p).0 ∷ answers,
        ap (λ rs. read_response c (post w url p).0 ∷ rs) read,
        (refl, went),
        ap suc count,
      )

  -- What a forwarding does with the payloads and what it reports.
  pub record IsReport (c : Codec) (url : Value) (ps : List Fields) (w : W)
      (out : Result ForwardResult × W) : Type 0 where
    pub answers : List (Result Response)
    pub posted : Posted url ps answers w out.1
    pub result : ForwardResult
    pub returned : out.0 ≡ ok result
    pub tells : Tells c url answers result

  module _ (c : Codec) where
    -- For a URL that is not empty and a callback that yields payloads, `forward_to_system_a` makes
    -- one request to the URL for each payload, in order, each in the world that the last left, and
    -- nothing else. It returns a result with the URL, with the status of the first answer, and with
    -- success exactly when every answer is good: a JSON dict with a true `success` or with the code
    -- 200, or another body under a status from 200 to 299. The result names no error, or is no
    -- success.
    pub forward_to_system_a_reports :
        (doc parsed : Fields) (url : Value) (w : W) (ps : List Fields)
        → truthy url ≡ true
        → resolve_parsed c doc ≡ ok parsed
        → build_system_a_payloads c parsed ≡ ok ps
        → IsReport c url ps w (forward_to_system_a post c doc url w)
    unfolding forward_to_system_a
    forward_to_system_a_reports doc parsed url w ps filled found built =
        let (answers, read, went, count) = send_all-Posted c url ps w in
        let some_payload = (build_system_a_payloads-IsEnvelope c parsed ps built).1 in
        let (f, made, tells) = merge_results-Tells c url answers (omega arith) in
        record {
          answers = answers;
          posted = rw (filled, found, built) went;
          result = f;
          returned = rw (filled, found, built, read) made;
          tells = tells;
        }

    -- When a stored callback does not yield payloads, `forward_to_system_a` changes nothing
    -- outside.
    pub forward_to_system_a_refuses :
        (doc : Fields) (url : Value) (w : W) (e : Exc)
        → (resolve_parsed c doc >>= build_system_a_payloads c) ≡ raise e
        → (forward_to_system_a post c doc url w).1 ≡ w
    unfolding forward_to_system_a
    forward_to_system_a_refuses doc url w e h = elim (Bool-cases (truthy url)) [
      | inl filled ↦ rw (filled, h)
      | inr missing ↦ rw missing
    ]
