-- ===== src/State/Prefixes.antt =====
-- util/helpers.py: `PrefixMap`, the channel-user modes that the server announces.
use py_burly_bot.Common.{
  ℕ, Bool, false, ◌||◌, not, List, [], ◌∷◌, ◌++◌, Text, nat_eq, text_eq, ◌==◌, Dict, insert,
  if◌then◌else◌, sort_by, codes,
}

-- One entry of `prefixiter`: the mode letter, the prefix character and its rank.
pub record Feature : Type 0 where
  pub cmd : Text
  pub prefix : Text
  pub num : ℕ

pub record PrefixMap : Type 0 where
  pub opprefixes : Text
  pub opcmds : Text
  pub nickprefixes : Text
  pub usermodemap : Dict Text Text
  pub voiceprefixes : Text
  pub voicecmds : Text

pub record Scan : Type 0 where
  pub built : PrefixMap
  pub open built use *
  pub foundop : Bool
  pub foundvoice : Bool

abbrev pub op_prefix : Text
op_prefix = codes "@"

abbrev pub voice_prefix : Text
voice_prefix = codes "+"

abbrev pub empty_map : PrefixMap
empty_map = record {
  opprefixes = [];
  opcmds = [];
  nickprefixes = [];
  usermodemap = [];
  voiceprefixes = [];
  voicecmds = [];
}

-- The `if not foundop: ... elif not foundvoice: ...` of the loop: which lists take the entry.
unfoldable pub classify : Feature → Scan → PrefixMap
classify f s =
    if not s.foundop
    then record s.built { opprefixes = s.opprefixes ++ f.prefix; opcmds = s.opcmds ++ f.cmd }
    else if not s.foundvoice
    then record s.built {
      voiceprefixes = s.voiceprefixes ++ f.prefix;
      voicecmds = s.voicecmds ++ f.cmd;
    }
    else s.built

-- The body of the loop of `loadfromprefix`.
unfoldable pub scan_feature : Scan → Feature → Scan
unfolding classify
scan_feature s f =
    let m = classify f s in
    record {
      built = record m {
        nickprefixes = s.nickprefixes ++ f.prefix;
        usermodemap = insert f.cmd f.prefix s.usermodemap;
      };
      foundop = s.foundop || f.prefix == op_prefix;
      foundvoice =
          if f.prefix == op_prefix then s.foundvoice else s.foundvoice || f.prefix == voice_prefix;
    }

unfoldable pub scan_features : Scan → List Feature → Scan
unfolding scan_feature
scan_features s [] = s
scan_features s (f ∷ fs) = scan_features (scan_feature s f) fs

unfoldable pub loadfromprefix : List Feature → PrefixMap
unfolding scan_features
loadfromprefix features =
    (scan_features (record { built = empty_map; foundop = false; foundvoice = false })
      (sort_by (λ f. f.num) features)).built
