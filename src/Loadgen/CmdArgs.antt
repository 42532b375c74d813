-- ===== src/Loadgen/CmdArgs.antt =====
-- include/tcplg/cmdargs.h: the arguments of the load generator. What argparse makes of the command
-- line, the split of aws-c-common and `atoi` are parameters. A string is the list of its characters.
use tcpeen.Base.{
  ℕ, zero, suc, ◌%◌, ◌≤◌, ◌<◌, ◌≡◌, Bool, true, false, not, ◌||◌, Option, none, some, List, [], ◌∷◌,
  length, if◌then◌else◌, ltb, ◌==◌,
}
use tcpeen.Connection.{ℤ, pos, negsuc}

-- `cmdline_args_t`: what argparse has put there, or what the check leaves there.
pub record CmdArgs : Type 0 where
  pub clients : ℤ
  pub rate : ℤ
  pub prefix : ℤ
  pub time : ℤ
  pub msglen : ℕ
  pub message : Option (List ℕ)
  pub server : Option (List ℕ)
  pub host : List ℕ
  pub port : ℤ

-- `split` gives the parts between the colons, at most two of them, or fails; `left` is what the
-- array of the parts holds where there are fewer.
pub record Texts : Type 0 where
  pub split : List ℕ → Option (List (List ℕ))
  pub left : List ℕ
  pub atoi : List ℕ → ℤ

abbrev pub positive_or : ℤ → ℕ → ℤ
positive_or (pos zero) d = pos d
positive_or (pos (suc n)) d = pos (suc n)
positive_or (negsuc n) d = pos d

abbrev pub at_least_zero_or : ℤ → ℕ → ℤ
at_least_zero_or (pos n) d = pos n
at_least_zero_or (negsuc n) d = pos d

-- The defaults.
unfoldable pub fill_in : CmdArgs → CmdArgs
fill_in a = record a {
  clients = positive_or a.clients 1;
  rate = at_least_zero_or a.rate 1;
  time = positive_or a.time 10;
}

abbrev pub part : Texts → List (List ℕ) → ℕ → List ℕ
part t [] i = t.left
part t (p ∷ ps) zero = p
part t (p ∷ ps) (suc i) = part t ps i

-- The test of the lengths, which tests that of the first part twice.
abbrev pub bad_lengths : List ℕ → List ℕ → Bool
bad_lengths ip port = ltb 16 (length ip) || length ip == 0 || ltb 5 (length port) || length ip == 0

abbrev pub bad_port : ℤ → Bool
bad_port (pos n) = n == 0 || ltb 65535 n
bad_port (negsuc n) = true

abbrev pub bad_prefix : ℤ → Bool
bad_prefix (pos n) = if n == 0 then false else (not (n % 8 == 0) || ltb 64 n)
bad_prefix (negsuc n) = true

infixl 5 ◌>>=◌
abbrev ◌>>=◌ : {A B : Type 0} → Option A → (A → Option B) → Option B
none >>= f = none
some x >>= f = f x

-- The parts of the server, and then the prefix; `none` where the check fails.
unfoldable pub check_parts : Texts → CmdArgs → List (List ℕ) → Option CmdArgs
check_parts t a ps =
    let ip = part t ps 0 in
    let port = t.atoi (part t ps 1) in
    if bad_lengths ip (part t ps 1)
    then none
    else (if bad_port port
        then none
        else (if bad_prefix a.prefix then none else some (record a { host = ip; port = port })))

unfoldable pub check_given : Texts → CmdArgs → List ℕ → Option CmdArgs
check_given t a message = if length message == 0 then none else do
  server ← a.server
  parts ← t.split server
  check_parts t (record a { msglen = length message }) parts

unfoldable pub parse_args : Texts → CmdArgs → Option CmdArgs
unfolding fill_in
parse_args t a = a.message >>= check_given t (fill_in a)

-- A number of at least `low` and at most `high`.
abbrev Within : ℕ → ℕ → ℤ → Type 0
Within low high (pos n) = (low ≤ n) × (n ≤ high)
Within low high (negsuc n) = ⊥

abbrev AtLeast : ℕ → ℤ → Type 0
AtLeast low (pos n) = low ≤ n
AtLeast low (negsuc n) = ⊥

-- What is accepted.
pub record IsUsable (a : CmdArgs) : Type 0 where
  pub clients : AtLeast 1 a.clients
  pub rate : AtLeast 0 a.rate
  pub time : AtLeast 1 a.time
  pub text : List ℕ
  pub message : a.message ≡ some text
  pub msglen : (a.msglen ≡ length text) × (0 < length text)
  pub host : (0 < length a.host) × (length a.host ≤ 16)
  pub port : Within 1 65535 a.port
  pub prefix : Within 0 64 a.prefix
