-- ===== src/Call/Clcc.antt =====
-- sxx-ril-call.c: a line of the list of current calls, written and read back.
use sxx_ril.Common.{
  ℕ, ◌-◌, ◌^◌, Bool, true, false, Option, none, some, [], ◌∷◌, ◌++◌, if◌then◌else◌, Text, codes,
  ◌≡◌, refl, ap, ◌∙◌, arith,
}
use sxx_ril.Common.Int.{ℤ, pos, negsuc, ◌≤ℤ◌}
use sxx_ril.Tok.{Result, ok, at_tok_nextint, at_tok_nextbool, at_tok_hasmore}
use sxx_ril.Tok.Strtol.{is_space}
use sxx_ril.Tok.Tokens.{Free, at_tok_start_iff}
use sxx_ril.Tok.Lines.{Field, IsField, Spaces, show, nextstr-show}
use sxx_ril.Tok.Numbers.{decimal_int, nextint-decimal_int, nextint-decimal_int_last}
use sxx_ril.Tok.Ranges.{flag, nextbool_iff}
use sxx_ril.Call.{
  CallState, active, holding, dialing, alerting, incoming, waiting, clcc_state_to_ril_state,
  RilCall, and_then, is_mode, read_number, with_state, from_start, call_from_clcc_line,
}

-- The number of a state in the line.
abbrev pub state_number : CallState → ℕ
state_number active = 0
state_number holding = 1
state_number dialing = 2
state_number alerting = 3
state_number incoming = 4
state_number waiting = 5

state_read : (s : CallState) → clcc_state_to_ril_state (pos (state_number s)) ≡ some s
state_read active = refl
state_read holding = refl
state_read dialing = refl
state_read alerting = refl
state_read incoming = refl
state_read waiting = refl

abbrev pub int_field : ℤ → Text → Text
int_field z rest = decimal_int z ++ (b',' ∷ rest)

abbrev pub IsInt32 : ℤ → Type 0
IsInt32 z = (negsuc (2 ^ 31 - 1) ≤ℤ z) × (z ≤ℤ pos (2 ^ 31 - 1))

-- What a line says of a call.
pub record Line : Type 0 where
  pub index : ℤ
  pub is_mt : Bool
  pub state : CallState
  pub mode : ℤ
  pub is_mpty : Bool
  pub number : Field
  pub toa : ℤ

-- The last field that is read, at the end of the line or with any text behind a ','.
abbrev pub last_field : ℤ → Option Text → Text
last_field z none = decimal_int z
last_field z (some rest) = int_field z rest

-- The line, as in `+CLCC: 1,0,2,0,0,"+18005551212",145`.
abbrev pub line_of : Line → Option Text → Text
line_of l rest =
    codes "+CLCC"
    ++ (b':'
        ∷ (codes " "
            ++ int_field l.index (
                int_field (flag l.is_mt) (
                  int_field (pos (state_number l.state)) (
                    int_field l.mode (
                      int_field (flag l.is_mpty)
                        (show l.number ++ (b',' ∷ last_field l.toa rest))))))))

go_on :
    {A B : Type 0} (r : Result A) (a : A) (cur : Option Text) (k : A → Option Text → Option B)
    (o : Option B)
    → r ≡ ok a cur
    → k a cur ≡ o
    → and_then r k ≡ o
go_on r a cur k o e f = ap (λ r. and_then r k) e ∙ f

start_on :
    (c : Option Text) (rest : Text) (k : Option Text → Option RilCall) (o : Option RilCall)
    → c ≡ some rest
    → k (some rest) ≡ o
    → from_start c k ≡ o
start_on c rest k o e f = ap (λ c. from_start c k) e ∙ f

state_on :
    (n : Option CallState) (s : CallState) (k : CallState → Option RilCall) (o : Option RilCall)
    → n ≡ some s
    → k s ≡ o
    → with_state n k ≡ o
state_on n s k o e f = ap (λ n. with_state n k) e ∙ f

number_on :
    (r : Result Text) (t : Text) (cur : Option Text) (k : Option (Text × ℤ) → RilCall)
    (o : Option RilCall)
    → r ≡ ok t cur
    → read_number (ok t cur) k ≡ o
    → read_number r k ≡ o
number_on r t cur k o e f = ap (λ r. read_number r k) e ∙ f

mode_on :
    (b : Bool) (x : Option RilCall) (o : Option RilCall)
    → b ≡ false
    → x ≡ o
    → (if b then none else x) ≡ o
mode_on b x o e f = ap (λ (b : Bool). if b then none else x) e ∙ f

more_on :
    (b : Bool) (x : Option RilCall) (o : Option RilCall)
    → b ≡ true
    → x ≡ o
    → (if b then x else none) ≡ o
more_on b x o e f = ap (λ (b : Bool). if b then x else none) e ∙ f

hasmore_on : (s t : Text) (c : ℕ) → at_tok_hasmore (some (s ++ (c ∷ t))) ≡ true
unfolding at_tok_hasmore
hasmore_on [] t c = refl
hasmore_on (x ∷ s) t c = refl

int_on :
    (z : ℤ) (rest : Text) → IsInt32 z → at_tok_nextint (some (int_field z rest)) ≡ ok z (some rest)
int_on z rest h = nextint-decimal_int z [] rest h.0 h.1 tt

last_on :
    (z : ℤ) (rest : Option Text) → IsInt32 z → at_tok_nextint (some (last_field z rest)) ≡ ok z rest
last_on z none h = nextint-decimal_int_last z [] h.0 h.1 tt
last_on z (some rest) h = int_on z rest h

flag-IsInt32 : (b : Bool) → IsInt32 (flag b)
flag-IsInt32 true = (ground arith, ground arith)
flag-IsInt32 false = (ground arith, ground arith)

flag_on :
    (b : Bool) (rest : Text) → at_tok_nextbool (some (int_field (flag b) rest)) ≡ ok b (some rest)
flag_on b rest = (nextbool_iff _ _ b).1 (int_on (flag b) rest (flag-IsInt32 b))

state-IsInt32 : (s : CallState) → IsInt32 (pos (state_number s))
state-IsInt32 active = (ground arith, ground arith)
state-IsInt32 holding = (ground arith, ground arith)
state-IsInt32 dialing = (ground arith, ground arith)
state-IsInt32 alerting = (ground arith, ground arith)
state-IsInt32 incoming = (ground arith, ground arith)
state-IsInt32 waiting = (ground arith, ground arith)

plus_clcc : Free b':' (codes "+CLCC")
plus_clcc = (refl, (refl, (refl, (refl, (refl, tt)))))

one_space : Spaces (codes " ")
unfolding is_space
one_space = (refl, tt)

-- A line that tells of a voice or fax call, not of a data call (mode 1), in numbers of the range of
-- an int, with a well-formed field for the number, is read as that call, whether it ends at `toa` or
-- goes on with a ',' and any text.
pub call_from-line_of :
    (l : Line) (rest : Option Text)
    → IsInt32 l.index
    → IsInt32 l.mode
    → IsInt32 l.toa
    → is_mode 1 l.mode ≡ false
    → IsField l.number
    → call_from_clcc_line (line_of l rest)
      ≡ some (record {
        index = l.index;
        is_mt = l.is_mt;
        state = l.state;
        is_voice = is_mode 0 l.mode;
        is_mpty = l.is_mpty;
        number = some (l.number.text, l.toa);
      })
unfolding call_from_clcc_line
call_from-line_of l rest i m t voice number =
    start_on _ _ _ _ ((at_tok_start_iff _ _).1 (codes "+CLCC", plus_clcc, refl)) (
      go_on _ l.index _ _ _ (nextint-decimal_int l.index (codes " ") _ i.0 i.1 one_space) (
        go_on _ l.is_mt _ _ _ (flag_on l.is_mt _) (
          go_on _ (pos (state_number l.state)) _ _ _ (int_on _ _ (state-IsInt32 l.state)) (
            state_on _ l.state _ _ (state_read l.state) (
              go_on _ l.mode _ _ _ (int_on l.mode _ m) (
                mode_on _ _ _ voice (
                  go_on _ l.is_mpty _ _ _ (flag_on l.is_mpty _) (
                    more_on _ _ _ (hasmore_on (show l.number) _ _) (
                      number_on _ l.number.text _ _ _ (nextstr-show l.number _ number)
                        (go_on _ l.toa _ _ _ (last_on l.toa rest t) refl))))))))))
