-- ===== src/Version.antt =====
-- Version and stage, include/kernel/core/version.h.
use wig_osx.Base.{ℕ, List}
use wig_osx.Base.Text.{text}

unfoldable pub version_string : List ℕ
unfolding text
version_string = text "0.016.1"

unfoldable pub stage_label : List ℕ
unfolding text
stage_label = text "Stage 16.1: Initial kernel heap backing region"
