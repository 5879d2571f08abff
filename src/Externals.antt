-- ===== src/Externals.antt =====
-- The packages outside the repository that the scheduler calls, as one parameter. Text is ASCII.
use classicswarm.Prelude.{Bool, Option}
use classicswarm.Text.{Str}
use classicswarm.Config.Codec.{Json}

pub record Externals : Type 0 where
  pub json : Json
  -- regexp.Compile and (*Regexp).MatchString; `none` is an error of Compile.
  pub compile : Str → Option (Str → Bool)
  -- stringid.TruncateID
  pub truncate : Str → Str
  -- ip := net.ParseIP(s); ip != nil && ip.IsUnspecified()
  pub unspecified_ip : Str → Bool
