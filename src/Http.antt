-- ===== src/Http.antt =====
-- net/http as the clients of gitter/ and alerter/line use it: a request, and the client that sends it. The
-- two are parameters of those clients.
pub mod Line
use go_sarah.Shared.{
  ℕ, zero, suc, ◌+◌, ◌-◌, ◌*◌, ◌/◌, ◌%◌, ◌≤◌, ◌<◌, ◌≡◌, refl, sym, ap, subst, ◌∙◌, fun_ext, ◌≢◌,
  ◌↔◌, ◌⊎◌, inl, inr, Bool, true, false, not, ◌&&◌, ◌||◌, Option, none, some, List, [], ◌∷◌, ◌++◌,
  map, append-nil, append_assoc, map-append, reverse, reverse_aux, reverse-reverse, arith,
  add_assoc, add_comm, add-zero, ltb, leb, nat_beq, if◌then◌else◌, nat_beq_iff, if_same, Bool-cases,
  Option-cases, is_nil, Eq, ◌==◌, nat_eq, ==_iff, ==_self, length, get_elem?, set, index_func, keep,
  any, tally, tally-append, tally_middle, length-append, keep-append, All, All-append, Text, codes,
  text_beq, text_eq, is_empty, Lacks, Lacks-append, split_unique, Map, lookup, insert, delete,
  lookup-insert, lookup-delete, Result, ok, err, Outcome, returns, panics, is_space, trim_left,
  trim_space, IsTrimmed, Blank, trim_space-surrounded, is_empty-IsTrimmed,
}
use go_sarah.Errors.{Error, wrapped}

-- A request: its headers are in the order in which they are set.
pub record Request : Type 0 where
  pub method : Text
  pub url : Text
  pub body : Option Text
  pub headers : List (Text × Text)

-- A response, with what its body gives.
pub record Response : Type 0 where
  pub status_code : ℕ
  pub body : Text

-- `new_request` is the error of `http.NewRequest`, and `send` is `Client.Do`.
pub record Http : Type 0 where
  pub new_request : Text → Text → Option Error
  pub send : Request → Result Error Response

abbrev pub status_ok : ℕ
status_ok = 200

abbrev pub construct_failed : Error → Error
construct_failed e = wrapped (codes "failed to construct HTTP request") e

abbrev pub execute_failed : Error → Error
execute_failed e = wrapped (codes "failed executing HTTP request") e

-- A request with its headers, unless `NewRequest` fails.
unfoldable pub new_request :
    Http → Text → Text → Option Text → List (Text × Text) → Result Error Request
new_request http method url body headers = elim (http.new_request method url) [
  | some e ↦ err e
  | none ↦ ok (record { method = method; url = url; body = body; headers = headers })
]
