-- ===== src/Examples.antt =====
-- Runs of the models, and the theorems at concrete inputs.
mod SqlText
mod Columns
mod Indexes
mod Keys
mod Rows
mod Requests
mod Loads
mod Past
mod Names
mod Saves
mod Forms
mod Bench
mod Admin
mod Live
mod Hints
mod Account
mod Structure
use dbtabase_workbench.Common.{◌≡◌, Bool, true, false, Text, length, ltb, arith}
use dbtabase_workbench.Sorting.{Collation}

-- Whether the second text is shorter than the first.
abbrev pub longer : Text → Text → Bool
longer a b = ltb (length b) (length a)

pub longer_self : (a : Text) → longer a a ≡ false
longer_self a = ground arith

pub longer_asymm : (a b : Text) → longer a b ≡ true → longer b a ≡ false
longer_asymm a b h = ground arith

pub longer_trans : (a b c : Text) → longer b a ≡ false → longer c b ≡ false → longer c a ≡ false
longer_trans a b c h k = ground arith

-- An order of names for the runs: the shorter one comes first.
abbrev pub by_length : Collation
by_length = record {
  after = longer;
  after-self = longer_self;
  after_asymm = longer_asymm;
  after_trans = longer_trans;
}
