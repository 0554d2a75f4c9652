-- ===== src/Main/Banner.antt =====
-- kernel/kernel.cpp: what `kernel_main` shows before its loop.
use mathlib.Core.Option.{some}
use first_os_build.Prelude.{
  ℕ, ◌/◌, ◌≡◌, refl, List, [], ◌∷◌, ◌++◌, Bytes, codes, arith, Returns, returns, All, sym, subst,
  pos,
}
use first_os_build.Prelude.Maybe
use first_os_build.Prelude.Maybe.{Ensures, ensures, Ensures-bind, Ensures-past}
use first_os_build.Editor.Page.{blanked}
use first_os_build.Interrupts.{Stubs, int_to_string}
use first_os_build.Main.{show_main_banner, write_all, literal, banner, show_memory}
use first_os_build.Memory.{memory_get_total, memory_get_free}
use first_os_build.Terminal.{KernelState}
use first_os_build.Terminal.Keeps.{HasCounts, Keeps, clear-Keeps, write_string-Keeps}
use first_os_build.Terminal.Refine.{Shows}
use first_os_build.Terminal.Texts.{IsText, clear_refines, write_string_refines, type_text-append}
use first_os_build.Terminal.View
use first_os_build.Terminal.View.{View}

abbrev pub joined : List Bytes → Bytes
joined [] = []
joined (t ∷ ts) = t ++ joined ts

-- From a page, texts are written one behind the other.
write_all_refines :
    (ts : List Bytes) {color : ℕ} {v : View} {s : KernelState}
    → All IsText ts
    → Shows color v s
    → Returns (Shows color (View.type_text color (joined ts) v)) (write_all ts s)
unfolding write_all View.type_text
write_all_refines [] h shows = returns shows
write_all_refines (t ∷ ts) {color} {v} (text, texts) shows =
    rw (type_text-append color t (joined ts) v) (
      Maybe.bind (write_string_refines t [] text shows)
        λ s shows'. write_all_refines ts texts shows')

write_all-Keeps : (total free : ℕ) (ts : List Bytes) → Keeps total free (write_all ts)
unfolding write_all
write_all-Keeps total free [] s h = ensures h
write_all-Keeps total free (t ∷ ts) s h =
    Ensures-bind (write_string-Keeps total free (literal t) s h) (write_all-Keeps total free ts)

-- 64 MB in all, and what the heap's megabyte leaves beside one header.
abbrev pub memory_line : List Bytes
memory_line =
    codes "Memory: "
    ∷ codes "65536"
    ∷ codes " KB total, "
    ∷ codes "1023"
    ∷ (codes " KB free" ++ b'\n' ∷ [])
    ∷ []

total_text : int_to_string 12 (pos (memory_get_total / 1024)) 32 ≡ some (codes "65536")
unfolding int_to_string first_os_build.Interrupts.int_to_string_loop first_os_build.Stdio.emit
    first_os_build.Stdio.finish first_os_build.Stdio.reverse first_os_build.Stdio.reverse_loop
    memory_get_total
total_text = refl

free_text : int_to_string 12 (pos (memory_get_free / 1024)) 32 ≡ some (codes "1023")
unfolding int_to_string first_os_build.Interrupts.int_to_string_loop first_os_build.Stdio.emit
    first_os_build.Stdio.finish first_os_build.Stdio.reverse first_os_build.Stdio.reverse_loop
    memory_get_free
free_text = refl

show_memory-line :
    (s : KernelState)
    → HasCounts memory_get_total memory_get_free s
    → show_memory s ≡ write_all memory_line s
unfolding show_memory
show_memory-line s (total, free) = rw (total, free, total_text, free_text) refl

-- The banner, and then the memory.
abbrev pub start_text : Bytes
start_text = joined banner ++ joined memory_line

banner-IsText : All IsText banner
banner-IsText = omega arith

memory_line-IsText : All IsText memory_line
memory_line-IsText = omega arith

-- From a page, with the counts of memory that `kernel_init` stores, the banner of `kernel_main` always ends: the page
-- is blank but for the banner and the line "Memory: 65536 KB total, 1023 KB free", from the cursor on.
pub main_banner_refines :
    {color : ℕ} {v : View} (s : KernelState)
    → Shows color v s
    → HasCounts memory_get_total memory_get_free s
    → Returns (Shows color (View.type_text color start_text (blanked color v))) (show_main_banner s)
unfolding show_main_banner
main_banner_refines {color} {v} s shows counts =
    Maybe.bind (Maybe.both (clear_refines shows) (clear-Keeps _ _ s counts)) λ s1 (shows1, counts1).
      Maybe.bind
        (Maybe.both (write_all_refines banner banner-IsText shows1)
          (write_all-Keeps _ _ banner s1 counts1))
        λ s2 (shows2, counts2). rw (show_memory-line s2 counts2) (
          Maybe.mono (write_all_refines memory_line memory_line-IsText shows2) λ s3 shows3.
            subst (λ u. Shows color u s3)
              (sym (type_text-append color (joined banner) (joined memory_line) (blanked color v)))
              shows3)
