-- ===== src/Hosts.antt =====
-- pkg/utils/utils.go: the `--hosts` and `--ssh-args` options and the map from tenants to nodes.
pub mod Quoting
pub mod NodeIds
pub mod Tenants
mod Tests
use ydbops.Base.{
  ℕ, zero, suc, ◌+◌, ◌-◌, ◌%◌, ◌^◌, String, Bool, true, false, not, ◌&&◌, ◌||◌, Option, none, some,
  List, [], ◌∷◌, ◌++◌, leb, ltb, ◌==◌, if◌then◌else◌, num_comparable, text_comparable,
}
use ydbops.Base.Int.{ℤ, pos, negsuc, max_int}
use ydbops.Base.Text.{codes, starts_with_digit, scan_digits}
use ydbops.Collections.{get, put, or_empty}
use ydbops.Cluster.{Node}

-- `unicode.IsSpace`
abbrev pub is_space : ℕ → Bool
is_space c =
    leb 9 c && leb c 13
    || c == b' '
    || c == 0x85
    || c == 0xa0
    || c == 0x1680
    || leb 0x2000 c && leb c 0x200a
    || c == 0x2028
    || c == 0x2029
    || c == 0x202f
    || c == 0x205f
    || c == 0x3000

abbrev flush : List (List ℕ) → List ℕ → List (List ℕ)
flush args [] = args
flush args (c ∷ cs) = args ++ (c ∷ cs) ∷ []

-- A character that starts no escaped quote: the new arguments and the new current one.
unfoldable pub take_rune : ℕ → Bool → List (List ℕ) → List ℕ → List (List ℕ) × List ℕ
take_rune c is_inside_quotes args cur_arg =
    if is_space c && not is_inside_quotes
    then (flush args cur_arg, [])
    else (args, cur_arg ++ c ∷ [])

-- The loop of `ParseSSHArgs` over code points; a backslash with a quote behind it switches
-- `isInsideQuotes` and leaves the quote.
unfoldable pub parse_from : Bool → List (List ℕ) → List ℕ → List ℕ → List (List ℕ)
unfolding take_rune
parse_from is_inside_quotes args cur_arg [] = flush args cur_arg
parse_from is_inside_quotes args cur_arg (c ∷ []) =
    let (args', cur') = take_rune c is_inside_quotes args cur_arg in
    parse_from is_inside_quotes args' cur' []
parse_from is_inside_quotes args cur_arg (c ∷ d ∷ rest) =
    let quote = parse_from (not is_inside_quotes) args (cur_arg ++ b'"' ∷ []) rest in
    let plain =
      parse_from is_inside_quotes (take_rune c is_inside_quotes args cur_arg).0
        (take_rune c is_inside_quotes args cur_arg).1 (d ∷ rest) in
    if c == 92 && d == b'"' then quote else plain

unfoldable pub parse_ssh_args : List ℕ → List (List ℕ)
parse_ssh_args raw_args = parse_from false [] [] raw_args

-- `url.Parse` decides which hosts are accepted; `none` is the error.
unfoldable pub get_node_fqdns : (String → Bool) → List String → Option (List String)
get_node_fqdns url_parses [] = some []
get_node_fqdns url_parses (host ∷ hosts) =
    if url_parses host
    then elim (get_node_fqdns url_parses hosts) [ none ↦ none | some rest ↦ some (host ∷ rest) ]
    else none

pub data NodeIdError : Type 0 where
  bad_id bad_range_start bad_range_end negative_id : NodeIdError

pub data Result {ℓ} (A : Type ℓ) : Type ℓ where
  ok : A → Result A
  err : NodeIdError → Result A

infixl 5 ◌>>=◌
abbrev ◌>>=◌ {ℓ κ} : {A : Type ℓ} {B : Type κ} → Result A → (A → Result B) → Result B
ok a >>= f = f a
err e >>= f = err e

-- All of the text must be digits.
abbrev whole_number : ℕ × List ℕ → Option ℕ
whole_number (n, []) = some n
whole_number (n, c ∷ cs) = none

unfoldable pub unsigned : List ℕ → Option ℕ
unsigned cs = if starts_with_digit cs then whole_number (scan_digits 0 cs) else none

abbrev in_range : ℕ → Option ℕ → Option ℕ
in_range most none = none
in_range most (some n) = if leb n most then some n else none

abbrev negated : Option ℕ → Option ℤ
negated none = none
negated (some zero) = some (pos 0)
negated (some (suc n)) = some (negsuc n)

abbrev positive : Option ℕ → Option ℤ
positive none = none
positive (some n) = some (pos n)

-- `strconv.Atoi`: an optional sign, then digits, within the range of an `int`.
unfoldable pub atoi : List ℕ → Option ℤ
unfolding unsigned
atoi [] = none
atoi (c ∷ cs) =
    if c == b'-'
    then negated (in_range (max_int + 1) (unsigned cs))
    else if c == b'+'
    then positive (in_range max_int (unsigned cs))
    else positive (in_range max_int (unsigned (c ∷ cs)))

-- `strings.Contains(_, "-")`
unfoldable pub has_dash : List ℕ → Bool
has_dash [] = false
has_dash (c ∷ cs) = if c == b'-' then true else has_dash cs

-- `strings.Split(_, "-")`: the first part and the other parts.
unfoldable pub split_dash : List ℕ → List ℕ × List (List ℕ)
split_dash [] = ([], [])
split_dash (c ∷ cs) =
    let (part, parts) = split_dash cs in if c == b'-' then ([], part ∷ parts) else (c ∷ part, parts)

abbrev second_part : List (List ℕ) → List ℕ
second_part [] = []
second_part (part ∷ parts) = part

-- The conversion `uint32(id)`.
abbrev pub to_u32 : ℤ → ℕ
to_u32 (pos n) = n % 2 ^ 32
to_u32 (negsuc n) = (2 ^ 32 - 1) - n % 2 ^ 32

-- `count` ids from `start` on.
unfoldable pub ids_from : ℕ → ℕ → List ℕ
ids_from zero start = []
ids_from (suc count) start = to_u32 (pos start) ∷ ids_from count (start + 1)

-- The loop `for id := start; id <= end; id++`. A bound of `max_int` would make it wrap and go on
-- for ever; no number with a minus sign gets here, since the text was split at '-'.
abbrev pub range_ids : ℤ → ℤ → List ℕ
range_ids (pos start) (pos end_id) = ids_from (end_id + 1 - start) start
range_ids _ _ = []

abbrev or_fail {ℓ} : {A : Type ℓ} → Option A → NodeIdError → Result A
or_fail none e = err e
or_fail (some a) e = ok a

abbrev checked_id : ℤ → Result (List ℕ)
checked_id (pos n) = ok (to_u32 (pos n) ∷ [])
checked_id (negsuc n) = err negative_id

-- One round of `GetNodeIds`: the ids that an element of the option stands for.
unfoldable pub ids_of_host : List ℕ → Result (List ℕ)
ids_of_host node_id =
    if has_dash node_id
    then (do
      let (first, others) = split_dash node_id
      start ← or_fail (atoi first) bad_range_start
      end_id ← or_fail (atoi (second_part others)) bad_range_end
      ok (range_ids start end_id))
    else (do id ← or_fail (atoi node_id) bad_id; checked_id id)

unfoldable pub get_node_ids : List String → Result (List ℕ)
unfolding ids_of_host
get_node_ids [] = ok []
get_node_ids (host ∷ hosts) = do
  ids ← ids_of_host (codes host)
  rest ← get_node_ids hosts
  ok (ids ++ rest)

abbrev add_tenant : List (String × List ℕ) → ℕ → Option String → List (String × List ℕ)
add_tenant m node_id none = m
add_tenant m node_id (some tenant) = put m tenant (or_empty (get m tenant) ++ node_id ∷ [])

unfoldable pub map_tenants_from : List (String × List ℕ) → List Node → List (String × List ℕ)
map_tenants_from m [] = m
map_tenants_from m (node ∷ nodes) = map_tenants_from (add_tenant m node.node_id node.dynamic) nodes

unfoldable pub populate_tenant_to_nodes_mapping : List Node → List (String × List ℕ)
unfolding map_tenants_from
populate_tenant_to_nodes_mapping nodes = map_tenants_from [] nodes
