-- ===== src/Tests/Arguments.antt =====
-- args/args.go at concrete inputs.
use gost_plugin.Args.Addr.{Options, host_port}
use gost_plugin.Args.Addr.Brackets.{Bracketed, host_port-Bracketed}
use gost_plugin.Args.Addr.Laws.{cut_last}
use gost_plugin.Args.Apply.{
  apply_args, apply_local, apply_options, apply_remote, apply_rest, flag, number, text,
}
use gost_plugin.Args.Apply.Laws.{Applied, apply_args-Applied}
use gost_plugin.Args.Apply.Range.{InRange, apply_args-InRange}
use gost_plugin.Args.Apply.Unset.{apply_options-no_local_port}
use gost_plugin.Args.Env.{Env}
use gost_plugin.Args.Escape.{encode_smethod_args}
use gost_plugin.Args.Escape.Extensional.{encode_smethod_args-SameMap}
use gost_plugin.Args.Escape.Order.{SameMap}
use gost_plugin.Args.Map.{Distinct, Entries, add, assign, first, get, lookup, values}
use gost_plugin.Args.Number.{format_uint, parse_digits, parse_uint}
use gost_plugin.Args.Plugin.{parse_loop, parse_plugin_options, read_pair, read_value}
use gost_plugin.Args.Plugin.Fuel.{parse_plugin_options-ne-out_of_fuel}
use gost_plugin.Args.Plugin.Grammar.{ReadsPairs, add_all, parse_plugin_options_iff}
use gost_plugin.Args.Plugin.RoundTrip.{collect, parse_plugin_options-print_pairs, print_pairs}
use gost_plugin.Args.Result.{bad_syntax, err, ok, out_of_fuel}
use gost_plugin.Args.Unescape.{index_unescaped, unescape_loop}
use gost_plugin.Common.{
  Bytes, List, [], ap, arith, codes, contains_byte, equal, equal_iff, length, none, refl, some,
  true, ◌↔◌, ◌∷◌, ◌≡◌, ◌≢◌,
}
use gost_plugin.Main.{flag_defaults}

abbrev two_options : Bytes
two_options = codes "mux=8;host=a\\;b"

abbrev two_pairs : List (Bytes × Bytes)
two_pairs = (codes "mux", codes "8") ∷ (codes "host", codes "a;b") ∷ []

two_options_parsed : parse_plugin_options two_options ≡ ok (add_all [] two_pairs)
unfolding parse_plugin_options parse_loop read_pair read_value index_unescaped unescape_loop equal
    contains_byte add lookup assign
two_options_parsed = refl

parse_plugin_options_iff_example :
    (parse_plugin_options two_options ≡ ok (add_all [] two_pairs)) ↔ (
      (ps : List (Bytes × Bytes)) × ReadsPairs two_options ps
      × (add_all [] two_pairs ≡ add_all [] ps))
parse_plugin_options_iff_example = parse_plugin_options_iff two_options (add_all [] two_pairs)

parse_plugin_options-ne-out_of_fuel_example : parse_plugin_options two_options ≢ err out_of_fuel
parse_plugin_options-ne-out_of_fuel_example = parse_plugin_options-ne-out_of_fuel two_options

parse_plugin_options-print_pairs_example :
    (m : Entries) × (parse_plugin_options (print_pairs two_pairs) ≡ ok m)
    × ((k : Bytes) → values (lookup m k) ≡ collect two_pairs k)
    × ((k : Bytes) → get (some m) k ≡ first (collect two_pairs k))
parse_plugin_options-print_pairs_example =
    parse_plugin_options-print_pairs two_pairs ((λ h. absurd (cc)), ((λ h. absurd (cc)), tt))

abbrev mux_args : Entries
mux_args = (codes "mux", codes "8" ∷ []) ∷ (codes "server", codes "true" ∷ []) ∷ []

abbrev applied : Options
applied = record flag_defaults { mux = 8; server = true }

mux_applied : apply_args mux_args flag_defaults ≡ (applied, none)
unfolding apply_args apply_rest apply_remote apply_local text flag number get lookup equal
    parse_uint parse_digits
mux_applied = refl

apply_args-Applied_example : Applied mux_args flag_defaults applied
apply_args-Applied_example = apply_args-Applied mux_args flag_defaults applied mux_applied

defaults-InRange : InRange flag_defaults
defaults-InRange = record {
  mux = omega arith;
  local_port = omega arith;
  remote_port = omega arith;
  log_level = omega arith;
  ed = omega arith;
}

apply_args-InRange_example : InRange applied
apply_args-InRange_example =
    apply_args-InRange mux_args flag_defaults applied mux_applied defaults-InRange

abbrev no_host : Env
no_host = record {
  ss_remote_host = codes "192.0.2.1";
  ss_remote_port = codes "443";
  ss_local_host = [];
  ss_local_port = codes "1984";
  ss_plugin_options = [];
}

abbrev no_port : Env
no_port = record no_host { ss_local_host = codes "127.0.0.1"; ss_local_port = [] }

apply_options-no_local_port_example : (apply_options no_port flag_defaults).1 ≡ some (bad_syntax [])
apply_options-no_local_port_example =
    apply_options-no_local_port no_port flag_defaults (λ h. absurd (cc)) (λ h. absurd (cc))
      (λ h. absurd (cc)) refl refl

abbrev other_order : Entries
other_order = (codes "server", codes "true" ∷ []) ∷ (codes "mux", codes "8" ∷ []) ∷ []

mux_args-Distinct : Distinct mux_args
unfolding lookup equal
mux_args-Distinct = (refl, (refl, tt))

keys_differ : codes "mux" ≢ codes "server"
keys_differ h = absurd (omega (arith, ap length h))

args_swap : SameMap mux_args other_order
unfolding lookup
args_swap k = ground (arith, keys_differ, equal_iff (codes "mux") k, equal_iff (codes "server") k)

other_order-Distinct : Distinct other_order
unfolding lookup equal
other_order-Distinct = (refl, (refl, tt))

encode_smethod_args-SameMap_example :
    encode_smethod_args (some mux_args) ≡ encode_smethod_args (some other_order)
encode_smethod_args-SameMap_example =
    encode_smethod_args-SameMap mux_args other_order mux_args-Distinct other_order-Distinct
      args_swap

-- An address of IPv6.
host_port-Bracketed_example :
    (host : Bytes) × Bracketed (codes "::1") host
    × (cut_last b':' (host_port (codes "::1") 443) ≡ some (host, format_uint 443))
    × (parse_uint (format_uint 443) 64 ≡ ok 443)
host_port-Bracketed_example = host_port-Bracketed (codes "::1") 443 (omega arith)
