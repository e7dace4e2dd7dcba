-- ===== src/Examples/Texts.antt =====
-- JSON values and texts, and a configuration, at which the theorems about them are applied.
use bitcoin_miner.Base.{◌≤◌, true, [], ◌≡◌, refl, arith, codes, ℤ, pos, negsuc}
use bitcoin_miner.Base.Texts.{◌=t=◌}
use bitcoin_miner.Util.Json.{
  Json, null, number, string, array, object, no_elements, element, no_members, member, find,
}
use bitcoin_miner.Util.Json.Writer.{dump}
use bitcoin_miner.Util.Json.Scan.{done}
use bitcoin_miner.Util.Json.Parser.{parse, max_depth}
use bitcoin_miner.Util.Json.Readable.{IsReadable, height}
use bitcoin_miner.Util.Json.RoundTrip.{parse-dump}
use bitcoin_miner.Util.Json.Fuel.{EndsWithin, parse-EndsWithin}
use bitcoin_miner.Util.Json.Depth.{Fits}
use bitcoin_miner.Util.Json.Depth.Parse.{parse-Fits}
use bitcoin_miner.Util.Json.Printable.{IsPrintable, dump-IsPrintable}
use bitcoin_miner.Core.Config.{Config, default_config, apply_partial_json, to_json}
use bitcoin_miner.Core.Config.Laws.{
  HasPorts, apply_partial_json-HasPorts, apply_partial_json-to_json,
}
use bitcoin_miner.Examples.Floats.{whole_floats}

-- {"id": 7, "result": ["a", -2, {}], "error": null}
abbrev reply : Json ℤ
reply = object (
    member (codes "id") (number (pos 7)) (
      member (codes "result")
        (array (
          element (string (codes "a"))
            (element (number (negsuc 1)) (element (object no_members) no_elements))))
        (member (codes "error") null no_members)))

reply-IsReadable : IsReadable whole_floats reply
unfolding IsReadable find ◌=t=◌
reply-IsReadable = (
  refl,
  (pos 7, omega arith, refl),
  (refl, (tt, ((negsuc 1, omega arith, refl), (tt, tt))), (refl, tt, tt)),
)

reply_low : height reply ≤ max_depth
unfolding height
reply_low = omega arith

parse-dump_example : parse whole_floats (dump whole_floats 2 reply) ≡ done reply []
parse-dump_example = parse-dump whole_floats reply 2 reply-IsReadable reply_low

parse-EndsWithin_example :
    EndsWithin whole_floats (codes "[1, {") (parse whole_floats (codes "[1, {"))
parse-EndsWithin_example = parse-EndsWithin whole_floats (codes "[1, {")

parse-Fits_example : Fits 0 reply
parse-Fits_example =
    parse-Fits whole_floats (dump whole_floats 0 reply)
      (parse-dump whole_floats reply 0 reply-IsReadable reply_low)

dump-IsPrintable_example : IsPrintable (dump whole_floats 0 reply)
dump-IsPrintable_example = dump-IsPrintable whole_floats reply reply-IsReadable

abbrev standard : Config ℤ
standard = default_config whole_floats

standard-HasPorts : HasPorts standard
standard-HasPorts = ((omega arith, omega arith), (omega arith, omega arith))

apply_partial_json-HasPorts_example : HasPorts (apply_partial_json whole_floats reply standard)
apply_partial_json-HasPorts_example =
    apply_partial_json-HasPorts whole_floats reply standard standard-HasPorts

apply_partial_json-to_json_example :
    apply_partial_json whole_floats (to_json whole_floats true standard) standard
    ≡ record standard { dashboard = record standard.dashboard { root = standard.dashboard.root } }
apply_partial_json-to_json_example =
    apply_partial_json-to_json whole_floats standard standard
      (omega arith, (1, refl, omega arith), standard-HasPorts)
