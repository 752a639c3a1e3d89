-- ===== src/Pmm/Print.antt =====
-- What `pmm_print_summary` writes to the log.
use wig_osx.Base.{List, [], ◌∷◌}
use wig_osx.Base.Text.{text}
use wig_osx.Log.{Call, put, say, decimal32}
use wig_osx.Pmm.Align.{frame_size}
use wig_osx.Pmm.{Pmm}
use wig_osx.Version.{stage_label}

unfoldable pub print_summary : Pmm → List Call
print_summary s =
    say stage_label
    ∷ say (text ".\n")
    ∷ say (text "PMM frame size: ")
    ∷ decimal32 frame_size
    ∷ say (text " bytes\n")
    ∷ say (text "Tracked frames: ")
    ∷ decimal32 s.total_frames
    ∷ put 10
    ∷ say (text "Free frames: ")
    ∷ decimal32 s.free_frames
    ∷ put 10
    ∷ say (text "Used/reserved frames: ")
    ∷ decimal32 s.used_frames
    ∷ put 10
    ∷ []
