-- ===== src/Release/Start.antt =====
-- release/kernel: what `kernel_main` shows before its loop.
use mathlib.Core.Option.{some}
use first_os_build.Prelude.{
  ℕ, ◌/◌, ◌≡◌, refl, [], ◌∷◌, ◌++◌, Bytes, codes, sym, subst, Returns, is_text-IsText, pos,
}
use first_os_build.Prelude.Maybe
use first_os_build.Release.Kernel.{show_banner, memory_format, help_text}
use first_os_build.Stdio.{snprintf, sprintf, int}
use first_os_build.Terminal.{KernelState}
use first_os_build.Terminal.Refine.{Shows}
use first_os_build.Terminal.Texts.{write_string_refines}
use first_os_build.Terminal.View
use first_os_build.Terminal.View.{View}

-- `sprintf` knows no %u, and copies it.
memory_text :
    (total free : ℕ)
    → sprintf 32 memory_format (int (pos total) ∷ int (pos free) ∷ [])
      ≡ some (pos 22, codes "%uKB total, %uKB free" ++ b'\n' ∷ [])
unfolding sprintf first_os_build.Stdio.sprintf_loop first_os_build.Stdio.sprintf_directive
    first_os_build.Stdio.literal first_os_build.Stdio.emit
memory_text total free = refl

-- What stands on the screen when the loop begins.
abbrev pub banner : Bytes
banner =
    (codes "Custom OS v2.0.0" ++ b'\n' ∷ [])
    ++ (codes "---------------" ++ b'\n' ∷ [])
    ++ codes "Memory: "
    ++ (codes "%uKB total, %uKB free" ++ b'\n' ∷ [])
    ++ help_text

banner_text :
    (color : ℕ) (v : View)
    → View.type_text color banner v
      ≡ View.type_text color help_text (
          View.type_text color (codes "%uKB total, %uKB free" ++ b'\n' ∷ []) (
            View.type_text color (codes "Memory: ") (
              View.type_text color
                (codes "---------------" ++ b'\n' ∷ [])
                (View.type_text color (codes "Custom OS v2.0.0" ++ b'\n' ∷ []) v))))
unfolding View.type_text
banner_text color v = refl

-- From a page, the banner of the older `kernel_main` always ends, and is written from the cursor on: the name, the
-- line that says "%uKB total, %uKB free" and not how much memory there is, and the help.
pub show_banner_refines :
    {color : ℕ} {v : View} {s : KernelState}
    → Shows color v s
    → Returns (Shows color (View.type_text color banner v)) (show_banner s)
unfolding show_banner
show_banner_refines {color} {v} h =
    Maybe.bind
      (write_string_refines (codes "Custom OS v2.0.0" ++ b'\n' ∷ []) []
        (is_text-IsText (codes "Custom OS v2.0.0" ++ b'\n' ∷ []) refl) h)
      λ s1 h1.
        Maybe.bind
          (write_string_refines (codes "---------------" ++ b'\n' ∷ []) []
            (is_text-IsText (codes "---------------" ++ b'\n' ∷ []) refl) h1)
          λ s2 h2.
            Maybe.bind
              (write_string_refines (codes "Memory: ") [] (is_text-IsText (codes "Memory: ") refl)
                h2)
              λ s3 h3. rw (memory_text (s3.total_memory / 1024) (s3.free_memory / 1024)) (
                Maybe.bind
                  (write_string_refines (codes "%uKB total, %uKB free" ++ b'\n' ∷ []) []
                    (is_text-IsText (codes "%uKB total, %uKB free" ++ b'\n' ∷ []) refl) h3)
                  λ s4 h4.
                    Maybe.mono
                      (write_string_refines help_text [] (is_text-IsText help_text refl) h4)
                      λ s5 h5. subst (λ w. Shows color w s5) (sym (banner_text color v)) h5)
