-- ===== src/Control.antt =====
-- control.h: the operator's control lines, the ban list (Control.Bans), the op levels (Control.Ops),
-- the answers of `fill` (Control.Fill) and the guard against a flood of commands (Control.Flood).
pub mod Fields
pub mod Bans
pub mod Ops
pub mod Fill
pub mod Flood
mod Tests
use Prim.Native.String.{String}
use ewb_server.Base.{
  ℕ, zero, suc, ◌==◌, ℤ, pos, negsuc, ◌+ℤ◌, leb_ℤ, ltb_ℤ, List, [], ◌∷◌, ◌++◌, Bool, true, false,
  ◌&&◌, ◌||◌, not, Option, none, some, length, Text, codes, text_beq, if◌then◌else◌,
}
use mathlib.Core.Option
use ewb_server.Zones.{is_empty, fields}
use ewb_server.Zones.Set.{put_line}

pub record CtlSpec : Type 0 where
  pub name : Text
  pub min_args : ℤ
  pub max_args : ℤ
  pub usage : Text

abbrev spec : String → ℤ → ℤ → Text → CtlSpec
spec name low high usage = record {
  name = codes name;
  min_args = low;
  max_args = high;
  usage = usage;
}

-- The dash of the texts is not ASCII.
abbrev dashed : String → String → Text
dashed s t = codes s ++ (0xe2 ∷ 0x80 ∷ 0x94 ∷ codes t)

unfoldable pub ctl_specs : List CtlSpec
ctl_specs =
    spec "help" (pos 0) (pos 0) (dashed "help                             " " this text")
    ∷ spec "who" (pos 0) (pos 0) (dashed "who                              " " connected players")
    ∷ spec "say" (pos 1) (pos 1)
        (dashed "say:<text>                       " " broadcast a [Server] line")
    ∷ spec "kick" (pos 1) (pos 2)
        (dashed "kick:<name>[:<reason>]           " " disconnect a player")
    ∷ spec "ban" (pos 1) (pos 1) (dashed "ban:<name|ip>                    " " ban and disconnect")
    ∷ spec "unban" (pos 1) (pos 1) (dashed "unban:<name|ip>                  " " lift a ban")
    ∷ spec "banlist" (pos 0) (pos 0)
        (dashed "banlist                          " " show the ban list")
    ∷ spec "save" (pos 0) (pos 0)
        (dashed "save                             " " flush world + players to disk")
    ∷ spec "stop" (pos 0) (pos 0)
        (dashed "stop                             " " save and shut the server down")
    ∷ spec "op" (pos 2) (pos 2)
        (dashed "op:<name>:<0..2>                 " " set a player's op level")
    ∷ spec "deop" (pos 1) (pos 1)
        (dashed "deop:<name>                      " " clear a player's op level")
    ∷ spec "setblock" (pos 4) (pos 5)
        (dashed "setblock:<x>:<y>:<z>:<type>[:<color>] " " place one block")
    ∷ spec "fill" (pos 7) (pos 8)
        (dashed "fill:<x0>:<y0>:<z0>:<x1>:<y1>:<z1>:<type>[:<color>] " " fill a box")
    ∷ spec "signs" (pos 1) (negsuc 0) (
        codes "signs:reload | signs:add:<x>:<y>:<z>:<a>:<b>:<c>:<text> |"
        ++ codes " signs:rm:<x>:<y>:<z>")
    ∷ spec "motd" (pos 1) (pos 1)
        (dashed "motd:reload | motd:show          " " re-read / print the welcome message")
    ∷ spec "region-stats" (pos 0) (pos 0)
        (dashed "region-stats                     " " REGION counters since start")
    ∷ spec "zones" (pos 0) (pos 0)
        (dashed "zones                            " " list protected zones")
    ∷ spec "zone" (pos 1) (negsuc 0) (
        codes "zone:add:<name>:<x0>:<y0>:<z0>:<x1>:<y1>:<z1>[:<all|off>[:<level>]] |"
        ++ codes " zone:set:<name>:<x0>:<y0>:<z0>:<x1>:<y1>:<z1> |"
        ++ codes " zone:flags:<name>:<all|off>[:<level>] | zone:rm:<name> | zone:reload")
    ∷ spec "topmap" (pos 5) (pos 5)
        (dashed "topmap:<x0>:<z0>:<x1>:<z1>:<step> " " top-down surface map (<=256x256 samples)")
    ∷ spec "passwd" (pos 1) (pos 1)
        (dashed "passwd:<name>                    " " issue (or replace) a login PIN; shown once")
    ∷ spec "unpasswd" (pos 1) (pos 1)
        (dashed "unpasswd:<name>                  " " remove a name's PIN")
    ∷ spec "pins" (pos 0) (pos 0)
        (dashed "pins                             " " names that have a login PIN")
    ∷ spec "tnt" (pos 0) (pos 1) (
        dashed "tnt[:on|off]                     "
          " show or switch TNT (until restart; --tnt sets the start)")
    ∷ spec "fire" (pos 0) (pos 1) (
        dashed "fire[:on|off]                    "
          " show or switch burning (until restart; --fire sets the start)")
    ∷ []

find_spec : Text → List CtlSpec → Option CtlSpec
find_spec verb [] = none
find_spec verb (s ∷ ss) = if text_beq verb s.name then some s else find_spec verb ss

unfoldable pub ctl_find : Text → Option CtlSpec
unfolding find_spec ctl_specs
ctl_find verb = find_spec verb ctl_specs

help_lines : List CtlSpec → Text
help_lines [] = []
help_lines (s ∷ ss) = put_line (codes "  " ++ s.usage) (help_lines ss)

unfoldable pub ctl_help_text : Text
unfolding help_lines ctl_specs
ctl_help_text =
    put_line (dashed "edenserver control socket " " Tier 1 operator commands:")
      (help_lines ctl_specs)

-- The line without the carriage returns and line feeds at its end.
unfoldable pub drop_crlf : Text → Text
drop_crlf [] = []
drop_crlf (c ∷ cs) =
    let rest = drop_crlf cs in if is_empty rest && ((c == 13) || (c == 10)) then [] else c ∷ rest

-- The text before the first colon, and the text behind it.
unfoldable pub cut_colon : Text → Text × Text
cut_colon [] = ([], [])
cut_colon (c ∷ cs) =
    let (verb, rest) = cut_colon cs in if c == b':' then ([], cs) else (c ∷ verb, rest)

verb_found : Text × Text → Option (Text × Text)
verb_found (verb, rest) = if is_empty verb then none else some (verb, rest)

-- Verb and rest; `none` for a line without a verb.
unfoldable pub ctl_split : Text → Option (Text × Text)
unfolding drop_crlf cut_colon verb_found
ctl_split line = verb_found (cut_colon (drop_crlf line))

-- The text up to the first colon and the text behind it, if there is a colon.
unfoldable pub find_colon : Text → Option (Text × Text)
find_colon [] = none
find_colon (c ∷ cs) =
    let later = Option.map (λ (p : Text × Text). (c ∷ p.0, p.1)) (find_colon cs) in
    if c == b':' then some ([], cs) else later

-- `left` fields may still be cut off; the last one keeps its colons.
unfoldable pub first_fields : ℕ → Text → List Text
unfolding find_colon
first_fields zero s = s ∷ []
first_fields (suc left) s = elim (find_colon s) [
  | none ↦ s ∷ []
  | some p ↦ p.0 ∷ first_fields left p.1
]

-- A limit that is not above 0 splits everything.
unfoldable pub ctl_fields : Text → ℤ → List Text
unfolding first_fields fields
ctl_fields [] limit = []
ctl_fields (c ∷ cs) (negsuc n) = fields (c ∷ cs)
ctl_fields (c ∷ cs) (pos zero) = fields (c ∷ cs)
ctl_fields (c ∷ cs) (pos (suc left)) = first_fields left (c ∷ cs)

-- What server_posix.cpp, `handleControlLine`, does before it looks at the verb.
pub data Checked : Type 0 where
  blank : Checked
  refused : Text → Checked
  accepted : Text → Text → Checked

arity : CtlSpec → Text → Text → Checked
unfolding ctl_fields
arity s verb rest =
    let n = pos (length (ctl_fields rest (s.max_args +ℤ pos 1))) in
    if leb_ℤ (pos 0) s.max_args && not (text_beq verb (codes "say"))
    then if ltb_ℤ n s.min_args || ltb_ℤ s.max_args n
      then refused (codes "usage: " ++ s.usage)
      else accepted verb rest
    else accepted verb rest

known : Option CtlSpec → Text → Text → Checked
unfolding arity
known none verb rest = refused (codes "error: unknown command '" ++ verb ++ codes "' (try 'help')")
known (some s) verb rest = arity s verb rest

checked : Option (Text × Text) → Checked
unfolding known ctl_find
checked none = blank
checked (some (verb, rest)) = known (ctl_find verb) verb rest

unfoldable pub check_line : Text → Checked
unfolding checked ctl_split
check_line line = checked (ctl_split line)
