-- ===== src/Base/Text.antt =====
-- Text. The program's strings are Qt's; comparison and prefixes are the native ones, and what
-- else it uses of Qt's text functions is the record `Qt`, which every user takes as a parameter.
use Prim.Native.Nat.{ℕ}
use Prim.Native.String.{String}
use mathlib.Core.Path.{◌≡◌, refl}
use mathlib.Core.Logic.{◌≢◌}
use mathlib.Core.Bool.{Bool, true, false}
use text.Mathlib.Text.{◌==◌}
use text.Mathlib.TextEquality.{eq_iff}
use native.Mathlib.Omega.{arith}
use obs_dsk_multistream.Base.Tests.{if◌then◌else◌}

-- QString::isEmpty
abbrev pub is_empty : String → Bool
is_empty s = s == ""

-- The parts of a QUrl that the program reads.
pub record Url : Type 0 where
  pub valid : Bool
  pub scheme : String
  pub host : String
  pub path : String

-- Qt's text functions, as documented: QString::trimmed, toLower, contains with and without case,
-- compare without case, QString::number, simplified, remove with a pattern, and QUrl's parser.
pub record Qt : Type 0 where
  pub trimmed : String → String
  pub to_lower : String → String
  pub contains_ci : String → String → Bool
  pub contains_cs : String → String → Bool
  pub equal_ci : String → String → Bool
  pub number : ℕ → String
  pub simplified : String → String
  -- QString::remove(QRegularExpression), the pattern first
  pub remove_matches : String → String → String
  pub parse_url : String → Url
  pub trimmed_idem : (s : String) → trimmed (trimmed s) ≡ trimmed s
  pub trimmed_empty : trimmed "" ≡ ""

-- A comparison with a text, pushed into a choice of texts.
pub eq-if :
    (b : Bool) (s t u : String) → ((if b then s else t) == u) ≡ (if b then (s == u) else (t == u))
eq-if true s t u = refl
eq-if false s t u = refl

pub ne_of_test : (s t : String) → (s == t) ≡ false → s ≢ t
ne_of_test s t h e = ground (arith, eq_iff s t)
