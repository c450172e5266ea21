-- ===== src/Rules/Files.antt =====
-- `saveRules` and `loadRules` of src/rule_manager.cpp. The file is its bytes; a file that cannot be
-- opened is `none`, and no write fails.
use multi_threaded_dpi_engin.Base.{
  ℕ, ◌+◌, ◌-◌, ◌*◌, ◌^◌, ◌%◌, Bool, true, false, ◌&&◌, ◌||◌, ◌==◌, ltb, leb, if◌then◌else◌, List,
  [], ◌∷◌, ◌++◌, map, Option, none, some, ◌>>=◌, Bytes, codes, bytes_eq, decimal,
}
use multi_threaded_dpi_engin.Types.App.{app_name, app_of_name}
use multi_threaded_dpi_engin.Rules.{
  RuleManager, block_ip, block_app, block_domain, block_port, get_blocked_ips, get_blocked_apps,
  get_blocked_domains,
}

abbrev pub line_break : ℕ
line_break = b'\n'

-- file << line << "\n", for one line after the other.
unfoldable pub put_lines : List Bytes → Bytes
put_lines [] = []
put_lines (l ∷ ls) = l ++ (line_break ∷ put_lines ls)

abbrev pub ips_header : Bytes
ips_header = codes "[BLOCKED_IPS]"

abbrev pub apps_header : Bytes
apps_header = codes "[BLOCKED_APPS]"

abbrev pub domains_header : Bytes
domains_header = codes "[BLOCKED_DOMAINS]"

abbrev pub ports_header : Bytes
ports_header = codes "[BLOCKED_PORTS]"

-- The lines of `saveRules`, an empty one before each section but the first.
abbrev pub saved_lines : RuleManager → List Bytes
saved_lines m =
    ips_header
    ∷ (get_blocked_ips m
        ++ ([]
            ∷ apps_header
            ∷ (map app_name (get_blocked_apps m)
                ++ ([]
                    ∷ domains_header
                    ∷ (get_blocked_domains m
                        ++ ([] ∷ ports_header ∷ (map decimal m.blocked_ports ++ [])))))))

-- `saveRules`: the result, and the file, whose old bytes go.
unfoldable pub save_rules : Option Bytes → RuleManager → Bool × Option Bytes
unfolding put_lines
save_rules none m = (false, none)
save_rules (some old) m = (true, some (put_lines (saved_lines m)))

-- std::getline, as long as it succeeds: an empty rest at the end of the file is no line.
unfoldable pub get_lines : Bytes → Bytes → List Bytes
get_lines [] [] = []
get_lines (c ∷ cs) [] = (c ∷ cs) ∷ []
get_lines line (c ∷ rest) = elim (c == line_break) [
  | true ↦ line ∷ get_lines [] rest
  | false ↦ get_lines (line ++ c ∷ []) rest
]

unfoldable pub is_digit : ℕ → Bool
is_digit c = leb b'0' c && leb c b'9'

-- What `std::stoi` reads: white space, a sign, and digits up to another character.
unfoldable pub skip_spaces : Bytes → Bytes
skip_spaces [] = []
skip_spaces (c ∷ cs) = if c == b' ' || (leb 9 c && leb c 13) then skip_spaces cs else c ∷ cs

unfoldable pub read_digits : ℕ → Bytes → ℕ
unfolding is_digit
read_digits n [] = n
read_digits n (c ∷ cs) =
    let more = read_digits (n * 10 + (c - b'0')) cs in if is_digit c then more else n

unfoldable pub read_number : Bytes → Option ℕ
unfolding read_digits
read_number [] = none
read_number (c ∷ cs) = if is_digit c then some (read_digits 0 (c ∷ cs)) else none

-- static_cast<uint16_t> of the `int`. `none` is one of the exceptions that `std::stoi` throws.
unfoldable pub cast_positive : Option ℕ → Option ℕ
cast_positive number = do n ← number; if ltb n (2 ^ 31) then some (n % 2 ^ 16) else none

unfoldable pub cast_negative : Option ℕ → Option ℕ
cast_negative number = do n ← number; if leb n (2 ^ 31) then some ((2 ^ 32 - n) % 2 ^ 16) else none

unfoldable pub signed_port : Bytes → Option ℕ
unfolding read_number cast_positive cast_negative
signed_port [] = none
signed_port (c ∷ cs) =
    if c == b'-'
    then cast_negative (read_number cs)
    else if c == b'+'
    then cast_positive (read_number cs)
    else cast_positive (read_number (c ∷ cs))

unfoldable pub port_of : Bytes → Option ℕ
unfolding signed_port skip_spaces
port_of line = signed_port (skip_spaces line)

-- The loop over the applications; a name that none has changes nothing.
unfoldable pub load_app : Bytes → RuleManager → RuleManager
load_app line m = elim (app_of_name line) [ none ↦ m | some app ↦ block_app app m ]

-- A line that is neither empty nor a header. `none` is an exception, or what `block_ip` has undefined.
unfoldable pub load_rule : Bytes → Bytes → RuleManager → Option RuleManager
unfolding load_app port_of
load_rule section line m =
    if bytes_eq section ips_header
    then block_ip line m
    else if bytes_eq section apps_header
    then some (load_app line m)
    else if bytes_eq section domains_header
    then some (block_domain line m)
    else if bytes_eq section ports_header
    then (port_of line >>= λ port. some (block_port port m))
    else some m

-- One round of the loop: the section and the rules behind the line.
unfoldable pub load_line : Bytes → Bytes → RuleManager → Option (Bytes × RuleManager)
unfolding load_rule
load_line section [] m = some (section, m)
load_line section (c ∷ cs) m =
    if c == b'['
    then some (c ∷ cs, m)
    else (load_rule section (c ∷ cs) m >>= λ r. some (section, r))

unfoldable pub load_lines : Bytes → List Bytes → RuleManager → Option RuleManager
unfolding load_line
load_lines section [] m = some m
load_lines section (l ∷ ls) m = do (next, r) ← load_line section l m; load_lines next ls r

-- `loadRules`
unfoldable pub load_rules : Option Bytes → RuleManager → Option (Bool × RuleManager)
unfolding load_lines get_lines
load_rules none m = some (false, m)
load_rules (some file) m = do r ← load_lines [] (get_lines [] file) m; some (true, r)
