-- ===== src/Http/Line.antt =====
-- alerter/line/client.go: the alerter for LINE Notify. `encode` is `url.Values.Encode` for one message and
-- `error_text` the Error method of errors.
use go_sarah.Shared.{
  ℕ, ◌*◌, ◌≡◌, refl, sym, ap, ◌∙◌, ◌↔◌, inl, inr, Option, none, some, List, [], ◌∷◌, ◌++◌, arith,
  nat_beq, if◌then◌else◌, nat_beq_iff, Bool-cases, Option-cases, nat_eq, Text, codes, text_eq,
  Result, ok, err,
}
use go_sarah.Errors.{Error, plain}
use go_sarah.Http.{
  Request, Response, Http, status_ok, construct_failed, execute_failed, new_request,
}

-- `Config`; the timeout in milliseconds.
pub record Config : Type 0 where
  pub token : Text
  pub request_timeout : ℕ

abbrev pub new_config : Config
new_config = record { token = []; request_timeout = 3 * 1000 }

-- `Client`, with the options `WithHTTPClient` in their order.
pub record Client : Type 0 where
  pub config : Config
  pub http_client : Http

unfoldable pub with_options : List Http → Client → Client
with_options [] c = c
with_options (http ∷ options) c = with_options options (record c { http_client = http })

-- `New`.
unfoldable pub new : Http → Config → List Http → Client
new default_client config options =
    with_options options (record { config = config; http_client = default_client })

abbrev pub endpoint : Text
endpoint = codes "https://notify-api.line.me/api/notify"

module _ (encode : Text → Text) (error_text : Error → Text) (number : ℕ → Text) where
  abbrev pub alert_message : Text → Error → Text
  alert_message b e = codes "Error on " ++ (b ++ (codes ": " ++ (error_text e ++ codes ".")))

  status_checked : Result Error Response → Option Error
  status_checked (err e) = some (execute_failed e)
  status_checked (ok resp) =
      if nat_beq resp.status_code status_ok
      then none
      else some
          (plain (codes "response status " ++ (number resp.status_code ++ codes " is returned")))

  sent : Client → Result Error Request → Option Error
  unfolding status_checked
  sent c (err e) = some (construct_failed e)
  sent c (ok req) = status_checked (c.http_client.send req)

  -- `Client.Alert`.
  unfoldable pub alert : Client → Text → Error → Option Error
  unfolding sent
  alert c b e = sent c (
      new_request c.http_client (codes "POST") endpoint (some (encode (alert_message b e))) (
        (codes "Authorization", codes "Bearer " ++ c.config.token)
        ∷ (codes "Content-Type", codes "application/x-www-form-urlencoded")
        ∷ []))

  -- The request of an alert.
  abbrev pub alert_request : Client → Text → Error → Request
  alert_request c b e = record {
    method = codes "POST";
    url = endpoint;
    body = some (encode (alert_message b e));
    headers =
        (codes "Authorization", codes "Bearer " ++ c.config.token)
        ∷ (codes "Content-Type", codes "application/x-www-form-urlencoded")
        ∷ [];
  }

  status_checked-none :
      (r : Result Error Response)
      → (status_checked r ≡ none)
        ↔ ((resp : Response) × (r ≡ ok resp) × (resp.status_code ≡ status_ok))
  unfolding status_checked
  status_checked-none (err e) = (λ h. absurd (ground (arith, h)), λ (resp, h, k). cc)
  status_checked-none (ok resp) = elim (Bool-cases (nat_beq resp.status_code status_ok)) [
    | inl good ↦
        (λ h. (resp, refl, (nat_beq_iff resp.status_code status_ok).0 good), λ h. rw good refl)
    | inr bad ↦ (
      λ h. absurd (ground (arith, h, bad)),
      λ (other, same, code). absurd (ground (arith, bad, code, ap (λ r. code_of r) same)),
    )
  ]
    where
      code_of : Result Error Response → ℕ
      code_of (err e) = 0
      code_of (ok other) = other.status_code

  -- Alert reports no error exactly if the request for the error can be made, is answered, and the answer has status 200.
  pub alert-none_iff :
      (c : Client) (b : Text) (e : Error)
      → (alert c b e ≡ none) ↔ (
          (c.http_client.new_request (codes "POST") endpoint ≡ none)
          × ((resp : Response) × (c.http_client.send (alert_request c b e) ≡ ok resp)
              × (resp.status_code ≡ status_ok)))
  unfolding alert sent status_checked new_request
  alert-none_iff c b e = elim (Option-cases (c.http_client.new_request (codes "POST") endpoint)) [
    | inl made ↦
        let (there, back) = status_checked-none (c.http_client.send (alert_request c b e)) in
        let sends : alert c b e ≡ status_checked (c.http_client.send (alert_request c b e)) =
          ap (λ o. sent c (made_of o)) made in
        (λ h. (made, there (sym sends ∙ h)), λ (m, h). sends ∙ back h)
    | inr (x, failed) ↦
        let fails : alert c b e ≡ some (construct_failed x) = ap (λ o. sent c (made_of o)) failed in
        (λ h. absurd (ground (arith, fails, h)), λ (m, h). absurd (ground (arith, failed, m)))
  ]
    where
      made_of : Option Error → Result Error Request
      made_of none = ok (alert_request c b e)
      made_of (some x) = err x
