-- ===== src/Parser/Joined.antt =====
-- `lines()` of lines that were joined, as the v2ray output joins them.
use sub_merge.Base.{◌≡◌, refl, ap, false, List, [], ◌∷◌}
use sub_merge.Base.Text.{Text, str, is_empty, Absent}
use sub_merge.Base.Split.{split, join, split-join}
use sub_merge.Base.Lists.{All, All-map}
use sub_merge.Parser.{strip_cr, ended_lines, lines}

-- A line with no newline in it and no carriage return at its end, which is not empty.
pub record IsLine (w : Text) : Type 0 where
  pub no_newline : Absent b'\n' w
  pub no_return : strip_cr w ≡ w
  pub filled : is_empty w ≡ false

ended_lines-IsLine : (ws : List Text) → All IsLine ws → ended_lines ws ≡ ws
unfolding ended_lines
ended_lines-IsLine [] h = refl
ended_lines-IsLine (w ∷ []) (l, h) = rw (l.filled)
ended_lines-IsLine (w ∷ (v ∷ ws)) (l, h) =
    rw (l.no_return) (ap (λ t. w ∷ t) (ended_lines-IsLine (v ∷ ws) h))

pub lines-join : (ws : List Text) → All IsLine ws → lines (join (str "\n") ws) ≡ ws
unfolding lines join ended_lines split
lines-join [] h = refl
lines-join (w ∷ ws) h =
    rw (split-join b'\n' w ws (All-map (λ w l. l.no_newline) (w ∷ ws) h))
      (ended_lines-IsLine (w ∷ ws) h)
