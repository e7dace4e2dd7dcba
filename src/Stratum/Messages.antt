-- ===== src/Stratum/Messages.antt =====
-- The messages of src/stratum/message.hpp and message.cpp: reading a line from the pool, and the
-- requests that are sent.
pub mod Requests
pub mod Delivery
use bitcoin_miner.Base.{
  ℕ, zero, suc, ◌+◌, ◌-◌, ◌*◌, Bool, true, false, ◌&&◌, ◌||◌, List, [], ◌∷◌, ◌++◌, not, ltb, leb,
  ◌==◌, if◌then◌else◌, Text, codes, ◌=t=◌, ℤ, pos, negsuc, length,
}
use bitcoin_miner.Util.Decimal.{to_string}
use bitcoin_miner.Util.Json.{
  Json, null, string, array, object, Floats, is_empty, is_null, is_object, is_array, has, lookup,
  at, size, as_string, as_int,
}
use bitcoin_miner.Util.Json.Writer.{json_escape, dump}
use bitcoin_miner.Util.Json.Scan.{Reason, Parsed, done, failed, out_of_fuel}
use bitcoin_miner.Util.Json.Parser.{parse}

-- The texts of `parseError`; a malformed text has its reason and its offset.
pub data MessageError : Type 0 where
  no_error : MessageError
  empty_line : MessageError
  malformed_json : Reason → ℕ → MessageError
  not_an_object : MessageError
  no_method_or_id : MessageError
  -- The parser has no such outcome.
  unfinished : MessageError

pub record Message (D : Type 0) : Type 0 where
  pub valid : Bool
  pub parse_error : MessageError
  pub has_id : Bool
  pub id : ℤ
  pub method : Text
  pub params : Json D
  pub result : Json D
  pub error : Json D

abbrev pub blank_message : {D : Type 0} → Message D
blank_message = record {
  valid = false;
  parse_error = no_error;
  has_id = false;
  id = pos 0;
  method = [];
  params = null;
  result = null;
  error = null;
}

module _ {D : Type 0} where
  abbrev pub is_notification : Message D → Bool
  is_notification message = not (is_empty message.method)

  abbrev pub is_response : Message D → Bool
  is_response message = is_empty message.method && message.has_id

  abbrev pub is_error : Message D → Bool
  is_error message = not (is_null message.error)

module _ (floats : Floats) where
  open floats use {Double}

  -- `Message::errorMessage` of the member `error`.
  unfoldable pub error_message : Json Double → Text
  error_message null = []
  error_message (string s) = s
  error_message (array xs) =
      let message = as_string (at (array xs) 1) [] in
      let code = as_int floats (at (array xs) 0) (pos 0) in
      if not (is_empty message)
      then message ++ codes " (code " ++ to_string code ++ codes ")"
      else codes "error code " ++ to_string code
  error_message other = dump floats 0 other

  -- The members of a parsed object.
  unfoldable pub read_members : Json Double → Message Double
  read_members root =
      let present = has root (codes "id") && not (is_null (lookup root (codes "id"))) in
      let method = as_string (lookup root (codes "method")) [] in
      let message : Message Double = record {
        valid = false;
        parse_error = no_error;
        has_id = present;
        id = if present then as_int floats (lookup root (codes "id")) (pos 0) else pos 0;
        method = method;
        params = lookup root (codes "params");
        result = lookup root (codes "result");
        error = lookup root (codes "error");
      } in
      if is_empty method && not present
      then record message { parse_error = no_method_or_id }
      else record message { valid = true }

  unfoldable pub parse_message : Text → Message Double
  parse_message line =
      if is_empty line
      then record blank_message { parse_error = empty_line }
      else elim (parse floats line) [
        | done root rest ↦
            if not (is_object root)
            then record blank_message { parse_error = not_an_object }
            else read_members root
        | failed reason rest ↦ record blank_message {
          parse_error = malformed_json reason (length line - length rest);
        }
        | out_of_fuel ↦ record blank_message { parse_error = unfinished }
      ]

unfoldable pub wrap_request : ℤ → Text → Text → Text
wrap_request id method params_json =
    codes "{\"id\":"
    ++ to_string id
    ++ codes ",\"method\":"
    ++ json_escape method
    ++ codes ",\"params\":"
    ++ params_json
    ++ codes "}\n"

unfoldable pub build_subscribe : ℤ → Text → Text
build_subscribe id user_agent =
    wrap_request id (codes "mining.subscribe") (codes "[" ++ json_escape user_agent ++ codes "]")

unfoldable pub build_authorize : ℤ → Text → Text → Text
build_authorize id username password =
    wrap_request id (codes "mining.authorize")
      (codes "[" ++ json_escape username ++ codes "," ++ json_escape password ++ codes "]")

unfoldable pub build_submit : ℤ → Text → Text → Text → Text → Text → Text
build_submit id username job_id extranonce2_hex n_time_hex nonce_hex =
    wrap_request id (codes "mining.submit") (
      codes "["
      ++ json_escape username
      ++ codes ","
      ++ json_escape job_id
      ++ codes ","
      ++ json_escape extranonce2_hex
      ++ codes ","
      ++ json_escape n_time_hex
      ++ codes ","
      ++ json_escape nonce_hex
      ++ codes "]")

-- The number is the text that "%.8g" gives.
unfoldable pub build_suggest_difficulty : (floats : Floats) → ℤ → floats.Double → Text
build_suggest_difficulty floats id difficulty =
    wrap_request id (codes "mining.suggest_difficulty")
      (codes "[" ++ floats.print_8g difficulty ++ codes "]")
