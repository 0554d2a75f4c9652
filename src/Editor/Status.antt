-- ===== src/Editor/Status.antt =====
-- kernel/editor.cpp: the status line.
use first_os_build.Prelude.{◌≡◌, refl, [], ◌∷◌, ◌++◌, codes}
use first_os_build.Editor.{Editor, show_status}
use first_os_build.Stdio.{int, text, snprintf}
use first_os_build.Terminal.{KernelState, terminal_movecursor, terminal_write_string}

-- Whatever the file, its size and the cursor are, the status line is the same text, behind the rows of
-- the page.
pub show_status-constant :
    (e : Editor) (s : KernelState)
    → show_status e s
      ≡ terminal_write_string
          (codes ".20s - zu bytes zu,zu" ++ 0 ∷ [])
          (terminal_movecursor 0 e.screen_rows s)
unfolding show_status snprintf first_os_build.Stdio.vsnprintf first_os_build.Stdio.format_loop
    first_os_build.Stdio.directive first_os_build.Stdio.emit
show_status-constant e s = refl
