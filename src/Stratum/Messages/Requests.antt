-- ===== src/Stratum/Messages/Requests.antt =====
-- About the requests of src/stratum/message.cpp: what is sent, as the parser of messages reads it.
use bitcoin_miner.Base.{◌*◌, ◌^◌, ◌<◌, List, [], ◌∷◌, ◌++◌, ◌≡◌, refl, Text, codes, ℤ, magnitude}
use mathlib.Core.List.{append_assoc, append-nil}
use bitcoin_miner.Util.Json.{
  Json, Elements, number, string, array, object, no_elements, element, no_members, member, Floats,
}
use bitcoin_miner.Util.Json.Writer.{
  json_escape, escape_char, escape_chars, dump_to, dump, padding, newline, colon, comma,
}
use bitcoin_miner.Util.Json.Reads.{number_text-whole}
use bitcoin_miner.Stratum.Messages.{wrap_request, build_subscribe, build_authorize, build_submit}

abbrev pub strings : {D : Type 0} → List Text → Elements D
strings [] = no_elements
strings (s ∷ ss) = element (string s) (strings ss)

id_text : json_escape (codes "id") ≡ codes "\"id\""
unfolding json_escape escape_chars escape_char
id_text = refl

method_text : json_escape (codes "method") ≡ codes "\"method\""
unfolding json_escape escape_chars escape_char
method_text = refl

params_text : json_escape (codes "params") ≡ codes "\"params\""
unfolding json_escape escape_chars escape_char
params_text = refl

ruleset texts = (append_assoc, append-nil, id_text, method_text, params_text)

module _ (floats : Floats) where
  open floats use {Double, of_int, whole_cast}

  -- The object that a request is.
  abbrev pub request : ℤ → Text → List Text → Json Double
  request id method params = object (
      member (codes "id") (number (of_int id)) (
        member (codes "method") (string method)
          (member (codes "params") (array (strings params)) no_members)))

  -- A request is the text of its object, and the end of the line.
  abbrev pub IsLine : Text → ℤ → Text → List Text → Type 0
  IsLine line id method params = line ≡ dump floats 0 (request id method params) ++ b'\n' ∷ []

  wrap_request-IsLine :
      (id : ℤ)
      → magnitude id < 9 * 10 ^ 15
      → (method params_json : Text) (params : List Text)
      → params_json ≡ dump_to floats 0 1 (array (strings params))
      → IsLine (wrap_request id method params_json) id method params
  unfolding wrap_request dump dump_to padding newline colon comma
  wrap_request-IsLine id small method params_json params e =
      rw (e, number_text-whole floats id small) (simp texts)

  pub build_subscribe-IsLine :
      (id : ℤ) (user_agent : Text)
      → magnitude id < 9 * 10 ^ 15
      → IsLine (build_subscribe id user_agent) id (codes "mining.subscribe") (user_agent ∷ [])
  unfolding build_subscribe
  build_subscribe-IsLine id user_agent small =
      wrap_request-IsLine id small (codes "mining.subscribe") _ (user_agent ∷ [])
        (unfold dump_to padding newline comma in simp texts)

  pub build_authorize-IsLine :
      (id : ℤ) (username password : Text)
      → magnitude id < 9 * 10 ^ 15
      → IsLine
          (build_authorize id username password)
          id
          (codes "mining.authorize")
          (username ∷ password ∷ [])
  unfolding build_authorize
  build_authorize-IsLine id username password small =
      wrap_request-IsLine id small (codes "mining.authorize") _ (username ∷ password ∷ [])
        (unfold dump_to padding newline comma in simp texts)

  pub build_submit-IsLine :
      (id : ℤ) (username job extranonce2 n_time nonce : Text)
      → magnitude id < 9 * 10 ^ 15
      → IsLine
          (build_submit id username job extranonce2 n_time nonce)
          id
          (codes "mining.submit")
          (username ∷ job ∷ extranonce2 ∷ n_time ∷ nonce ∷ [])
  unfolding build_submit
  build_submit-IsLine id username job extranonce2 n_time nonce small =
      wrap_request-IsLine id small (codes "mining.submit") _
        (username ∷ job ∷ extranonce2 ∷ n_time ∷ nonce ∷ [])
        (unfold dump_to padding newline comma in simp texts)
