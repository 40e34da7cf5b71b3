-- ===== src/Metrics/Line.antt =====
-- The line of a metric, read by its spaces.
use gitrpc.Prelude.{◌≡◌, ◌≢◌, sym, ap, ◌∙◌, [], ◌∷◌, ◌++◌, append_assoc, All-append, codes, arith}
use gitrpc.Logging.{Text}
use gitrpc.Utils.{split}
use gitrpc.Utils.Split.{IsFree, split-last}
use gitrpc.Metrics.{underscored, metric_line}

underscored-IsFree : (name : Text) → IsFree 32 (underscored name)
unfolding underscored
underscored-IsFree [] = tt
underscored-IsFree (c ∷ name) = (ground arith, underscored-IsFree name)

tag-IsFree : IsFree 32 (codes ",platform=")
tag-IsFree = omega arith

field-IsFree : IsFree 32 (codes "value=")
field-IsFree = omega arith

-- Whatever the name of the metric, its line has one space: in front of it stand the name, with underscores for its
-- spaces, and the platform, and behind it the value. The platform and the value have no space.
metric_line-split :
    (platform name value : Text)
    → IsFree 32 platform
    → IsFree 32 value
    → split 32 (metric_line platform name value)
      ≡ (underscored name ++ (codes ",platform=" ++ platform)) ∷ (codes "value=" ++ value) ∷ []
unfolding metric_line
metric_line-split platform name value free free1 =
    let series = underscored name ++ (codes ",platform=" ++ platform) in
    let series_free : IsFree 32 series =
      All-append (λ c. c ≢ 32) (underscored name) (codes ",platform=" ++ platform)
        (underscored-IsFree name)
        (All-append (λ c. c ≢ 32) (codes ",platform=") platform tag-IsFree free) in
    let field_free1 : IsFree 32 (codes "value=" ++ value) =
      All-append (λ c. c ≢ 32) (codes "value=") value field-IsFree free1 in
    let field = codes "value=" ++ value in
    let key = codes ",platform=" in
    let line =
      append_assoc series (32 ∷ []) field
      ∙ append_assoc (underscored name) (key ++ platform) (32 ∷ field)
      ∙ ap (λ s. underscored name ++ s) (append_assoc key platform (32 ∷ field)) in
    ap (split 32) (sym line)
    ∙ split-last 32 (series ∷ []) 118 (codes "alue=" ++ value) (series_free, tt) field_free1
