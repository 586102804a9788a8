-- ===== src/Tests/Others.antt =====
-- Globs, numbers, hashes, lists, options and the broker at concrete inputs.
use voltkv.Base.{
  ◌+◌, ◌-◌, ◌≡◌, ◌↔◌, refl, false, true, none, some, List, [], ◌∷◌, length, get_elem?, ltb,
  if◌then◌else◌, Bytes, codes, bytes_eq, arith,
}
use voltkv.Base.Int.{pos, negsuc, ◌+ℤ◌}
use voltkv.Base.Dict
use voltkv.Base.Dict.{Distinct}
use voltkv.Number.{format_int, format_nat, parse_int64, IsInt64}
use voltkv.Number.RoundTrip.{parse_int64-format_int}
use voltkv.Glob.{glob_match}
use voltkv.Glob.Spec.{Matches, glob_match_iff}
use voltkv.Store.Time.{zero_time}
use voltkv.Store.Entry.{string_entry}
use voltkv.Store.Strings.{would_overflow}
use voltkv.Store.Strings.Bounds.{would_overflow_iff}
use voltkv.Store.Hashes.{set_fields}
use voltkv.Store.Hashes.Fields.{last_value, set_fields_lem}
use voltkv.Store.Lists.{slice_list}
use voltkv.Store.Lists.Slices.{first_place, end_place, get_elem?-slice_list}
use voltkv.Store.Shards.{Store, new}
use voltkv.Store.Walks.{db_size, keys}
use voltkv.Store.Walks.Exact.{db_size-keys}
use voltkv.Command.Options.{SetOptions, parse_set_opts, options_loop}
use voltkv.Command.World.{to_upper}
use voltkv.Command.Options.Laws.{expiry_lost}
use voltkv.Pubsub
use voltkv.Pubsub.{member, Broker, Subscription, Sent, subscribe, snapshot, unsubscribe, send_all}
use voltkv.Pubsub.Race.{send_all-unsubscribe}

glob_match_iff_example :
    (glob_match (codes "a*[b-d]") (codes "axxc") ≡ true) ↔ Matches (codes "a*[b-d]") (codes "axxc")
glob_match_iff_example = glob_match_iff (codes "a*[b-d]") (codes "axxc")

would_overflow_iff_example :
    (would_overflow (pos 9223372036854775807) (pos 1) ≡ false)
    ↔ IsInt64 (pos 9223372036854775807 +ℤ pos 1)
would_overflow_iff_example =
    would_overflow_iff (pos 9223372036854775807) (pos 1) (omega arith) (omega arith)

parse_int64-format_int_example : parse_int64 (format_int (negsuc 41)) ≡ some (negsuc 41)
parse_int64-format_int_example = parse_int64-format_int (negsuc 41) (omega arith)

db_size-keys_example :
    db_size (pos 0) (new (pos 4)) ≡ length (keys (codes "*") (pos 0) (new (pos 4)))
db_size-keys_example = db_size-keys (pos 0) (new (pos 4))

abbrev some_store : Store
some_store = record {
  shards =
      ((codes "a", string_entry (codes "1") (pos 5) (pos 0))
        ∷ (codes "b", string_entry (codes "2") (pos 0) (pos 0))
        ∷ [])
      ∷ [];
  mask = 0;
}

abbrev three : List Bytes
three = codes "x" ∷ codes "y" ∷ codes "z" ∷ []

get_elem?-slice_list_example : get_elem? (slice_list (negsuc 1) (pos 9) three) 1 ≡ (
    if ltb 1 (end_place (pos 9) 3 - first_place (negsuc 1) 3)
    then get_elem? three (first_place (negsuc 1) 3 + 1)
    else none)
get_elem?-slice_list_example = get_elem?-slice_list (negsuc 1) (pos 9) three 1

abbrev one_field : Dict.Dict Bytes
one_field = (codes "f", codes "1") ∷ []

one_field-Distinct : Distinct one_field
unfolding Dict.lookup
one_field-Distinct = (refl, tt)

abbrev two_pairs : List (Bytes × Bytes)
two_pairs = (codes "f", codes "2") ∷ (codes "g", codes "3") ∷ []

set_fields_lem_example :
    ((f : Bytes)
      → Dict.lookup f (set_fields two_pairs one_field 0).0
        ≡ last_value two_pairs f (Dict.lookup f one_field))
    × Distinct (set_fields two_pairs one_field 0).0
    × (length (set_fields two_pairs one_field 0).0 + 0
        ≡ length one_field + (set_fields two_pairs one_field 0).1)
set_fields_lem_example = set_fields_lem two_pairs one_field 0 one_field-Distinct

parsed_nx : parse_set_opts (codes "nx" ∷ []) ≡ some (record { ttl = pos 0; nx = true; xx = false })
unfolding parse_set_opts options_loop to_upper bytes_eq
parsed_nx = refl

expiry_lost_example :
    (o : SetOptions) × (parse_set_opts (codes "EX" ∷ format_nat 10000000000 ∷ []) ≡ some o)
    × ((string_entry (codes "v") o.ttl (pos 7)).expires_at ≡ zero_time)
expiry_lost_example = expiry_lost 10000000000 (codes "v") (pos 7) (omega arith) (omega arith)

abbrev newcomer : Subscription
newcomer = record { channel = codes "news"; buffer = []; closed = false }

abbrev one_subscriber : Broker
one_subscriber = (subscribe (codes "news") Pubsub.new).0

one_subscriber-made : get_elem? one_subscriber.made 0 ≡ some newcomer
unfolding subscribe
one_subscriber-made = refl

one_subscriber-member : member 0 (snapshot newcomer.channel one_subscriber) ≡ true
unfolding snapshot subscribe Dict.lookup Dict.insert bytes_eq
one_subscriber-member = refl

send_all-unsubscribe_example :
    send_all
      (codes "news")
      (codes "hi")
      (snapshot (codes "news") one_subscriber)
      (unsubscribe 0 one_subscriber)
    ≡ Pubsub.panic
send_all-unsubscribe_example =
    send_all-unsubscribe one_subscriber (codes "hi") 0 newcomer one_subscriber-made
      one_subscriber-member
