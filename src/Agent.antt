-- ===== src/Agent.antt =====
-- internal/agent/agent.go: what an agent makes of the configurations that it fetched, before it reconciles.
-- A configuration that cannot be fetched or parsed is `none`. net.ParseCIDR is applied already:
-- a subnet is the number of its address and the length of its prefix.
use Prim.Native.Char.{Char, code}
use text.Mathlib.Text.{starts_with}
use mathlib.Core.Option.{map as map_option}
use firework.Base.{
  filter_by, ℕ, suc, ◌+◌, ◌-◌, ◌*◌, ◌/◌, ◌%◌, ◌^◌, String, str_append, Bool, true, false, ◌&&◌,
  ◌||◌, not, ◌==◌, if◌then◌else◌, Option, none, some, List, [], ◌∷◌, eqb, ltb, leb, or_else,
  is_some, str_lt, map,
}
use firework.Base.Int64.{add64, gt64}
use firework.Base.Decimal.{decimal, digit_char}
use firework.Base.Dict.{Dict, lookup, insert}
use firework.Base.Sort.{sort_stable}
use firework.Base.Text.{is_space}
use firework.Config.{NetworkConfig, ServiceConfig, NodeConfig, ServiceLink}
pub mod Addresses
pub mod Distinct
pub mod Enough
pub mod Guests
pub mod Fetch
pub mod Links
pub mod Samples

-- "\x00", which no revision is.
abbrev pub revision_metadata_conflict : String
revision_metadata_conflict = "\0"

unfoldable pub merge_revision_metadata : String → String → String
merge_revision_metadata current next =
    if current == revision_metadata_conflict
    then current
    else if current == ""
    then next
    else if (next == "") || (current == next)
    then current
    else revision_metadata_conflict

abbrev pub usable_revision_metadata : String → String
usable_revision_metadata revision = if revision == revision_metadata_conflict then "" else revision

-- The address of a host in the subnet, as a number: not that of the network, nor the next one, which is
-- the gateway, nor the last, which is the broadcast's.
unfoldable pub guest_address : ℕ → ℕ → ℕ → Option ℕ
guest_address base ones idx =
    let host_count = 2 ^ (32 - ones) in
    let candidate = (base + (idx + 2) % 2 ^ 32) % 2 ^ 32 in
    if ltb 30 ones
    then none
    else if leb (host_count - 1) (idx + 2)
    then none
    else if not (eqb (candidate / host_count) (base / host_count))
    then none
    else some candidate

-- net.IP.String
unfoldable pub dotted : ℕ → String
dotted a = str_append (decimal (a / 2 ^ 24 % 256)) (
    str_append "." (
      str_append (decimal (a / 2 ^ 16 % 256)) (
        str_append "."
          (str_append (decimal (a / 2 ^ 8 % 256)) (str_append "." (decimal (a % 256)))))))

abbrev pub ip_of : Option NetworkConfig → String
ip_of none = ""
ip_of (some network) = network.guest_ip

-- strings.Fields
abbrev pub prepend_field : Char → List String → List String
prepend_field c [] = String.◌∷◌ c String.[] ∷ []
prepend_field c (s ∷ ss) = String.◌∷◌ c s ∷ ss

unfoldable pub split_spaces : String → List String
unfolding is_space
split_spaces String.[] = String.[] ∷ []
split_spaces (String.◌∷◌ c s) =
    let rest = split_spaces s in
    if is_space (code c) then String.[] ∷ rest else prepend_field c rest

unfoldable pub fields : String → List String
unfolding split_spaces
fields s = filter_by (λ t. not (t == "")) (split_spaces s)

unfoldable pub any_prefix : String → List String → Bool
any_prefix prefix [] = false
any_prefix prefix (token ∷ tokens) =
    if token == "--"
    then false
    else if starts_with token prefix
    then true
    else any_prefix prefix tokens

unfoldable pub has_kernel_arg_prefix : String → String → Bool
unfolding fields any_prefix
has_kernel_arg_prefix kernel_args prefix = any_prefix prefix (fields kernel_args)

-- The parts with an argument before the first "--", if there is one.
unfoldable pub before_separator : String → List String → Option (List String)
before_separator arg [] = none
before_separator arg (part ∷ parts) =
    let rest = before_separator arg parts in
    if part == "--" then some (arg ∷ part ∷ parts) else map_option (λ ps. part ∷ ps) rest

unfoldable pub join_spaces : List String → String
join_spaces [] = ""
join_spaces (part ∷ []) = part
join_spaces (part ∷ next ∷ parts) = str_append part (str_append " " (join_spaces (next ∷ parts)))

abbrev pub joined_or : String → Option (List String) → String
joined_or otherwise none = otherwise
joined_or otherwise (some parts) = join_spaces parts

unfoldable pub insert_kernel_arg : String → String → String
unfolding fields before_separator join_spaces
insert_kernel_arg kernel_args arg =
    if kernel_args == ""
    then arg
    else joined_or (str_append kernel_args (str_append " " arg))
        (before_separator arg (fields kernel_args))

abbrev pub upper_hex_char : ℕ → Char
upper_hex_char d =
    if ltb d 10
    then digit_char d
    else if eqb d 10
    then "A"
    else if eqb d 11
    then "B"
    else if eqb d 12
    then "C"
    else if eqb d 13
    then "D"
    else if eqb d 14
    then "E"
    else "F"

-- The verb %02X on the low byte of a number, after a colon.
abbrev pub colon_byte : ℕ → String → String
colon_byte n s =
    String.◌∷◌ ":"
      (String.◌∷◌ (upper_hex_char (n / 16 % 16)) (String.◌∷◌ (upper_hex_char (n % 16)) s))

unfoldable pub guest_mac : ℕ → String
guest_mac idx =
    let n = (idx + 1) % 2 ^ 32 in
    str_append "AA:FC"
      (colon_byte (n / 2 ^ 24) (colon_byte (n / 2 ^ 16) (colon_byte (n / 2 ^ 8) (colon_byte n ""))))

abbrev pub ip_arg : String → String → String → String
ip_arg ip gateway netmask = str_append "ip=" (
    str_append ip
      (str_append "::" (str_append gateway (str_append ":" (str_append netmask "::eth0:off")))))

-- One service of assignNetworking, and the loop.
module _ (base ones : ℕ) (gateway netmask : String) where
  unfoldable pub networked : ServiceConfig → NetworkConfig → ℕ → ℕ → ServiceConfig
  networked svc network idx a = record svc {
    network = some (record network { guest_ip = dotted a; guest_mac = guest_mac idx });
    kernel_args =
        if has_kernel_arg_prefix svc.kernel_args "ip="
        then svc.kernel_args
        else insert_kernel_arg svc.kernel_args (ip_arg (dotted a) gateway netmask);
  }

  -- The service, and whether the loop goes on, and with which index.
  unfoldable pub assign_one :
      ServiceConfig → Option NetworkConfig → ℕ → Option ℕ → Option (ServiceConfig × ℕ)
  assign_one svc none idx found = some (svc, idx)
  assign_one svc (some network) idx none = none
  assign_one svc (some network) idx (some a) = some (networked svc network idx a, suc idx)

  abbrev pub assigned_or :
      List ServiceConfig
      → Option (ServiceConfig × ℕ)
      → (ℕ → List ServiceConfig)
      → List ServiceConfig
  assigned_or untouched none next = untouched
  assigned_or untouched (some (svc, idx)) next = svc ∷ next idx

  unfoldable pub assign_networking : ℕ → List ServiceConfig → List ServiceConfig
  unfolding guest_address assign_one
  assign_networking idx [] = []
  assign_networking idx (svc ∷ services) =
      assigned_or (svc ∷ services) (assign_one svc svc.network idx (guest_address base ones idx))
        (λ next. assign_networking next services)

-- sumResources and checkCapacity, on vCPUs and mebibytes.
pub record NodeCapacity : Type 0 where
  pub vcpus : ℕ
  pub memory_mb : ℕ

unfoldable pub sum_resources : List ServiceConfig → NodeCapacity → NodeCapacity
sum_resources [] total = total
sum_resources (svc ∷ services) total = sum_resources services (record {
  vcpus = add64 total.vcpus svc.vcpus;
  memory_mb = add64 total.memory_mb svc.memory_mb;
})

unfoldable pub check_capacity : Option NodeCapacity → NodeCapacity → Bool
check_capacity none used = true
check_capacity (some cap) used =
    not (gt64 used.vcpus cap.vcpus || gt64 used.memory_mb cap.memory_mb)

-- readNodeCapacity: what is read, or else the last value that was read, which is kept.
unfoldable pub read_node_capacity :
    Option NodeCapacity → Option NodeCapacity → Option NodeCapacity × Option NodeCapacity
read_node_capacity (some cap) last = (some cap, some cap)
read_node_capacity none (some last) = (some last, some last)
read_node_capacity none none = (none, none)
