-- ===== src/Gitter/Rest/Posting.antt =====
-- PostMessage of gitter/rest.go, with Post.
use go_sarah.Shared.{
  ◌≡◌, refl, sym, ap, ◌∙◌, ◌↔◌, Option, none, some, List, [], ◌∷◌, ◌++◌, arith, nat_eq, Text, codes,
  text_beq, text_eq, Result, ok, err,
}
use go_sarah.Errors.{Error}
use go_sarah.Paths.Parts.{IsPart, IsPart-is_part, is_part}
use go_sarah.Paths.Clean.{abs_path}
use go_sarah.Http.{Request, Response, Http, new_request}
use go_sarah.Gitter.{Room, Message}
use go_sarah.Gitter.Rest.{
  Client, authorized, decoded, answered, requested, marshalled, post, posted, post_message,
  build_endpoint-abs_path,
}

module _ (http : Http) (url_string : Text → Text) (decode : Text → Result Error Message)
    (c : Client) (room : Room) where
  -- The request for a message.
  abbrev pub posting : Text → Request
  posting body = record {
    method = codes "POST";
    url =
        url_string (abs_path (c.api_version ∷ codes "rooms" ∷ room.id ∷ codes "chatMessages" ∷ []));
    body = some body;
    headers =
        (codes "Authorization", codes "Bearer " ++ c.token)
        ∷ (codes "Accept", codes "application/json")
        ∷ (codes "Content-Type", codes "application/json")
        ∷ [];
  }

  answered-ok :
      (r : Result Error Response) (m : Message)
      → (posted http url_string (answered http url_string decode r) ≡ ok m)
        ↔ ((resp : Response) × (r ≡ ok resp) × (decode resp.body ≡ ok m))
  unfolding posted answered decoded
  answered-ok (err e) m =
      (λ h. absurd (ground (arith, h)), λ (resp, h, k). absurd (ground (arith, h)))
  answered-ok (ok resp) m = (
    λ h. (resp, refl, there (decode resp.body) h),
    λ (other, same, k). back (decode resp.body) (ap (λ r. body_of r) same ∙ k),
  )
    where
      body_of : Result Error Response → Result Error Message
      body_of (ok other) = decode other.body
      body_of (err e) = err e

      there :
          (d : Result Error Message)
          → posted http url_string (decoded http url_string decode d) ≡ ok m
          → d ≡ ok m
      there (ok n) h = h
      there (err e) h = absurd (ground (arith, h))

      back :
          (d : Result Error Message)
          → d ≡ ok m
          → posted http url_string (decoded http url_string decode d) ≡ ok m
      back (ok n) h = h
      back (err e) h = absurd (ground (arith, h))

  made : Text → Option Error → Result Error Request
  made body none = ok (posting body)
  made body (some e) = err e

  requested-ok :
      (body : Text) (o : Option Error) (m : Message)
      → (posted http url_string (requested http url_string decode (made body o)) ≡ ok m) ↔ (
          (resp : Response) × (o ≡ none)
          × (http.send (posting body) ≡ ok resp)
          × (decode resp.body ≡ ok m))
  unfolding requested posted made
  requested-ok body (some e) m =
      (λ h. absurd (ground (arith, h)), λ (resp, h, k, l). absurd (ground (arith, h)))
  requested-ok body none m =
      let (there, back) = answered-ok (http.send (posting body)) m in
      (λ h. let (resp, k, l) = there h in (resp, refl, k, l), λ (resp, h, k, l). back (resp, k, l))

  post-made :
      (body : Text)
      → IsPart c.api_version
      → IsPart room.id
      → post http url_string decode c
          (codes "rooms" ∷ room.id ∷ codes "chatMessages" ∷ [])
          (ok body)
        ≡ requested http url_string decode
            (made body (http.new_request (codes "POST") (posting body).url))
  unfolding post marshalled new_request made
  post-made body hv hr =
      let path =
        build_endpoint-abs_path c (codes "rooms" ∷ room.id ∷ codes "chatMessages" ∷ [])
          (hv, (rooms-IsPart, (hr, (messages-IsPart, tt)))) in
      ap
        (λ p. requested http url_string decode (
          new_request http (codes "POST") (url_string p) (some body)
            (authorized c ++ (codes "Content-Type", codes "application/json") ∷ [])))
        path
      ∙ ap (requested http url_string decode)
          (by_new (http.new_request (codes "POST") (posting body).url))
    where
      rooms-IsPart : IsPart (codes "rooms")
      rooms-IsPart = IsPart-is_part (codes "rooms") (unfold is_part text_beq in refl)

      messages-IsPart : IsPart (codes "chatMessages")
      messages-IsPart = IsPart-is_part (codes "chatMessages") (unfold is_part text_beq in refl)

      by_new :
          (o : Option Error) → (elim o [ some e ↦ err e | none ↦ ok (posting body) ]) ≡ made body o
      by_new none = unfold made in refl
      by_new (some e) = unfold made in refl

  -- For a version and a room whose identifier could name directories: PostMessage succeeds with a message exactly if the text is marshalled, the request to the room's path can be made and is answered, and the body of the answer, whatever its status, is decoded to this message.
  pub post_message-ok_iff :
      (marshal : Text → Result Error Text) (text : Text) (m : Message)
      → IsPart c.api_version
      → IsPart room.id
      → (post_message http url_string decode marshal c room text ≡ ok m) ↔ (
          (body : Text) × (resp : Response) × (marshal text ≡ ok body)
          × (http.new_request (codes "POST") (posting body).url ≡ none)
          × (http.send (posting body) ≡ ok resp)
          × (decode resp.body ≡ ok m))
  unfolding post_message post marshalled posted
  post_message-ok_iff marshal text m hv hr = by_marshal (marshal text)
    where
      text_of : Result Error Text → Text
      text_of (ok x) = x
      text_of (err e) = []

      fragments : List Text
      fragments = codes "rooms" ∷ room.id ∷ codes "chatMessages" ∷ []

      by_marshal :
          (r : Result Error Text)
          → (posted http url_string (post http url_string decode c fragments r) ≡ ok m) ↔ (
              (body : Text) × (resp : Response) × (r ≡ ok body)
              × (http.new_request (codes "POST") (posting body).url ≡ none)
              × (http.send (posting body) ≡ ok resp)
              × (decode resp.body ≡ ok m))
      by_marshal (err e) =
          (λ h. absurd (ground (arith, h)), λ (body, resp, h, k, l, n). absurd (ground (arith, h)))
      by_marshal (ok body) =
          let sends = ap (posted http url_string) (post-made body hv hr) in
          let (there, back) =
            requested-ok body (http.new_request (codes "POST") (posting body).url) m in
          (
            λ h. let (resp, k, l, n) = there (sym sends ∙ h) in (body, resp, refl, k, l, n),
            λ (other, resp, same, k, l, n).
                sends ∙ back (resp, k, ap (λ r. http.send (posting (text_of r))) same ∙ l, n),
          )
