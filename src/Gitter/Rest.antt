-- ===== src/Gitter/Rest.antt =====
-- gitter/rest.go and gitter/streaming.go: the clients of Gitter's APIs. `url_string` is the String method of
-- the URL of the API with another path, `marshal` is `json.Marshal`, and the decoders are those of
-- `json.NewDecoder`. No status code is looked at.
pub mod Posting
use go_sarah.Shared.{
  ℕ, zero, suc, ◌+◌, ◌-◌, ◌*◌, ◌/◌, ◌%◌, ◌≤◌, ◌<◌, ◌≡◌, refl, sym, ap, subst, ◌∙◌, fun_ext, ◌≢◌,
  ◌↔◌, ◌⊎◌, inl, inr, Bool, true, false, not, ◌&&◌, ◌||◌, Option, none, some, List, [], ◌∷◌, ◌++◌,
  map, append-nil, append_assoc, map-append, reverse, reverse_aux, reverse-reverse, arith,
  add_assoc, add_comm, add-zero, ltb, leb, nat_beq, if◌then◌else◌, nat_beq_iff, if_same, Bool-cases,
  Option-cases, is_nil, Eq, ◌==◌, nat_eq, ==_iff, ==_self, length, get_elem?, set, index_func, keep,
  any, tally, tally-append, tally_middle, length-append, keep-append, All, All-append, Text, codes,
  text_beq, text_eq, is_empty, Lacks, Lacks-append, split_unique, Map, lookup, insert, delete,
  lookup-insert, lookup-delete, Result, ok, err, Outcome, returns, panics, is_space, trim_left,
  trim_space, IsTrimmed, Blank, trim_space-surrounded, is_empty-IsTrimmed,
}
use go_sarah.Errors.{Error, wrapped}
use go_sarah.Paths.{slash, join_all, join_from, path_of, clean}
use go_sarah.Paths.Parts.{IsPart, path_of-append}
use go_sarah.Paths.Clean.{abs_path, clean_doubled}
use go_sarah.Http.{Request, Response, Http, construct_failed, execute_failed, new_request}
use go_sarah.Gitter.{Room, Message}

-- `RestAPIClient` and `StreamingAPIClient`.
pub record Client : Type 0 where
  pub token : Text
  pub api_version : Text

unfoldable pub new_rest_api_client : Text → Client
new_rest_api_client token = record { token = token; api_version = codes "v1" }

unfoldable pub new_streaming_api_client : Text → Client
new_streaming_api_client token = record { token = token; api_version = codes "v1" }

-- `buildEndpoint`: the path of the URL. The path of RestAPIEndpoint is a slash.
unfoldable pub build_endpoint : Client → List Text → Text
build_endpoint c fragments = join_all ((slash ∷ []) ∷ c.api_version ∷ fragments)

abbrev authorized : Client → List (Text × Text)
authorized c =
    (codes "Authorization", codes "Bearer " ++ c.token)
    ∷ (codes "Accept", codes "application/json")
    ∷ []

unmarshal_failed : Error → Error
unmarshal_failed e = wrapped (codes "can not unmarshal given JSON structure") e

module _ (http : Http) (url_string : Text → Text) where
  module _ {A : Type 0} (decode : Text → Result Error A) where
    decoded : Result Error A → Result Error A
    unfolding unmarshal_failed
    decoded (err e) = err (unmarshal_failed e)
    decoded (ok a) = ok a

    answered : Result Error Response → Result Error A
    unfolding decoded
    answered (err e) = err (execute_failed e)
    answered (ok resp) = decoded (decode resp.body)

    requested : Result Error Request → Result Error A
    unfolding answered
    requested (err e) = err (construct_failed e)
    requested (ok req) = answered (http.send req)

    -- `Get`.
    unfoldable pub get : Client → List Text → Result Error A
    unfolding requested
    get c fragments = requested (
        new_request http (codes "GET") (url_string (build_endpoint c fragments)) none
          (authorized c))

    marshalled : Client → List Text → Result Error Text → Result Error A
    unfolding requested
    marshalled c fragments (err e) = err (wrapped (codes "can not marshal given payload") e)
    marshalled c fragments (ok body) = requested (
        new_request http (codes "POST") (url_string (build_endpoint c fragments)) (some body)
          (authorized c ++ (codes "Content-Type", codes "application/json") ∷ []))

    -- `Post`, for what `json.Marshal` makes of the payload.
    unfoldable pub post : Client → List Text → Result Error Text → Result Error A
    unfolding marshalled
    post c fragments body = marshalled c fragments body

  -- `Rooms`.
  unfoldable pub rooms : (Text → Result Error (List Room)) → Client → Result Error (List Room)
  rooms decode c = get decode c (codes "rooms" ∷ [])

  posted : Result Error Message → Result Error Message
  posted (err e) = err (wrapped (codes "failed to post message") e)
  posted (ok m) = ok m

  -- `PostMessage`; `marshal` is that of a PostingMessage with the text.
  unfoldable pub post_message :
      (Text → Result Error Message)
      → (Text → Result Error Text)
      → Client
      → Room
      → Text
      → Result Error Message
  unfolding posted
  post_message decode marshal c room text =
      posted (post decode c (codes "rooms" ∷ room.id ∷ codes "chatMessages" ∷ []) (marshal text))

-- The URL of a room's stream.
unfoldable pub streaming_endpoint : Client → Room → Text
streaming_endpoint c room =
    codes "https://stream.gitter.im/"
    ++ (c.api_version ++ (codes "/rooms/" ++ (room.id ++ codes "/chatMessages")))

module _ (http : Http) (url_parse : Text → Option Text) where
  connection : Room → Result Error Response → Result Error (Room × Response)
  connection room (err e) = err e
  connection room (ok resp) = ok (room, resp)

  stream_requested : Room → Result Error Request → Result Error (Room × Response)
  unfolding connection
  stream_requested room (err e) = err e
  stream_requested room (ok req) = connection room (http.send req)

  streamed : Client → Room → Option Text → Outcome (Result Error (Room × Response))
  unfolding stream_requested
  streamed c room none = panics
  streamed c room (some url) =
      returns (stream_requested room (new_request http (codes "GET") url none (authorized c)))

  -- `Connect`: the error of `url.Parse` is dropped with a nil URL, whose String method panics.
  unfoldable pub connect : Client → Room → Outcome (Result Error (Room × Response))
  unfolding streamed
  connect c room = streamed c room (url_parse (streaming_endpoint c room))

join_from-parts : (s : Text) (c : ℕ) (ps : List Text) → join_from (c ∷ s) ps ≡ (c ∷ s) ++ path_of ps
unfolding join_from path_of
join_from-parts s c [] = sym (append-nil (c ∷ s))
join_from-parts s c (p ∷ ps) =
    join_from-parts (s ++ slash ∷ p) c ps ∙ append_assoc (c ∷ s) (slash ∷ p) (path_of ps)

-- The path of a request is the version and the fragments behind a slash each, if these are names of directories.
pub build_endpoint-abs_path :
    (c : Client) (fragments : List Text)
    → All IsPart (c.api_version ∷ fragments)
    → build_endpoint c fragments ≡ abs_path (c.api_version ∷ fragments)
unfolding build_endpoint join_all join_from
build_endpoint-abs_path c fragments h =
    ap (λ s. if is_empty s then [] else clean s)
      (join_from-parts [] slash (c.api_version ∷ fragments))
    ∙ clean_doubled c.api_version fragments h
