-- ===== src/Vfs/Domain/Tests.antt =====
-- The VFS domain on concrete calls, and the claims at them.
use domains.Prelude.{
  ℕ, ◌≡◌, refl, ◌%◌, List, [], ◌∷◌, none, some, Bool, true, false, ok, panic, arith, All, ◌==◌,
}
use domains.Prelude.Map.{lookup, insert, remove}
use domains.Prelude.Act.{state_of}
use domains.Vfs.Domain.Sample.{
  words, files, kinds, tree, empty, empty-Agree, SampleFile, kernel, epoll, socket,
}
use domains.Vfs.Domain.State.{
  Vfs, insert_dentry, entered, new_kernel_file, get_or_insert, stored, insert_special_file,
  remove_file, dropped, forget, fields_dropped, contents_dropped, unshadowed,
}
use domains.Vfs.Domain.Quiet.{maps}
use domains.Vfs.Domain.Closing.{IsWithout, remove_file-IsWithout}
use domains.Vfs.Domain.Lost.{remove_file-recover}
use domains.Vfs.Domain.Keeps.{Agree, insert_dentry-Keeps}
use domains.Vfs.Domain.SpecialKeeps.{do_poll_create-Keeps}
use domains.Vfs.Domain.Run.{Call, closes, call_vfs_close, call_do_pipe2, call_do_socket}
use domains.Vfs.Domain.RunLaws.{perform_all}
use domains.Vfs.Domain.Sequences.{perform_all-Agree, open_files_stay}
use domains.Vfs.Domain.Recovery.{crash, recover}
use domains.Vfs.Domain.Recovered.{
  FindsAgain, IsBack, recover-Agree, recover-kernel, recover-special,
}
use domains.Vfs.Domain.Special.{do_poll_create, do_fcntl, do_poll_ctl}
use domains.Vfs.Domain.SpecialLaws.{do_fcntl-cloexec, do_poll_ctl-lem, wanted}
use domains.Vfs.Domain.Core.{epoll_ctl_add}

-- A kernel file under 4, and with an epoll file under 5.
abbrev with_kernel : Vfs Bool SampleFile ℕ
with_kernel = state_of (insert_dentry kinds 1 false) empty

with_kernel-Agree : (strict : Bool) → Agree kinds strict with_kernel
with_kernel-Agree strict =
    let one =
      (insert_dentry-Keeps kinds strict 0 1 false).extends empty (empty-Agree strict)
        (omega arith) in
    one.fresh

abbrev with_both : Vfs Bool SampleFile ℕ
with_both = state_of (do_poll_create kinds 0) with_kernel

with_kernel-next : with_kernel.inode_id ≡ 5
unfolding insert_dentry entered new_kernel_file get_or_insert stored lookup
with_kernel-next = refl

with_both-Agree : (strict : Bool) → Agree kinds strict with_both
with_both-Agree strict =
    let e = with_kernel-next in
    let one =
      (do_poll_create-Keeps kinds strict 0 0).extends with_kernel (with_kernel-Agree strict)
        (omega arith) in
    one.fresh

kernel_there : lookup 4 with_both.vfs_map ≡ some (kernel 1 1 4)
unfolding insert_dentry entered new_kernel_file get_or_insert stored lookup insert do_poll_create
    insert_special_file
kernel_there = refl

epoll_there : lookup 5 with_both.vfs_map ≡ some (epoll 5)
unfolding insert_dentry entered new_kernel_file get_or_insert stored lookup insert do_poll_create
    insert_special_file
epoll_there = refl

no_interest : lookup 5 with_both.interests ≡ some []
unfolding insert_dentry entered new_kernel_file get_or_insert stored lookup insert do_poll_create
    insert_special_file
no_interest = refl

remove_file-IsWithout_example :
    ((remove_file kinds 4 with_both).0 ≡ ok tt)
    × IsWithout true 4 (maps with_both) (maps (state_of (remove_file kinds 4) with_both))
unfolding lookup do_poll_create insert_special_file insert insert_dentry entered new_kernel_file
    get_or_insert stored
remove_file-IsWithout_example =
    remove_file-IsWithout kinds true 4 with_both (with_both-Agree true) (omega arith)

-- Where the network stack refuses to remove the socket, the removal panics, and the file is gone.
abbrev one_socket : Vfs Bool SampleFile ℕ
one_socket = record empty { vfs_map = (4, socket 9) ∷ [] }

socket_panics : remove_file kinds 4 one_socket ≡ (panic, empty)
unfolding remove_file dropped forget fields_dropped contents_dropped unshadowed lookup remove
socket_panics = refl

-- The file system refuses to drop the inode of the entry 7.
abbrev with_seven : Vfs Bool SampleFile ℕ
with_seven = state_of (insert_dentry kinds 7 false) empty

with_seven-Agree : Agree kinds false with_seven
with_seven-Agree =
    let one =
      (insert_dentry-Keeps kinds false 0 7 false).extends empty (empty-Agree false) (omega arith) in
    one.fresh

seven_there : lookup 4 with_seven.vfs_map ≡ some (kernel 7 7 4)
unfolding insert_dentry entered new_kernel_file get_or_insert stored lookup insert
seven_there = refl

remove_file-recover_example :
    ((remove_file kinds 4 with_seven).0 ≡ panic)
    × ((recover kinds (crash kinds (state_of (remove_file kinds 4) with_seven))).0 ≡ panic)
remove_file-recover_example =
    remove_file-recover kinds false 4 with_seven (kernel 7 7 4) (λ m w. (m, w, refl))
      with_seven-Agree (omega arith) seven_there refl refl

-- A pipe and a socket come, the second end of the pipe goes, and the closing of the socket panics.
abbrev calls : List (Call ℕ)
calls = call_do_pipe2 0 ∷ call_do_socket 9 ∷ call_vfs_close 6 ∷ call_vfs_close 7 ∷ []

perform_all-Agree_example : Agree kinds false (perform_all words files tree kinds calls with_kernel)
perform_all-Agree_example =
    let e = with_kernel-next in
    perform_all-Agree words files tree kinds false calls with_kernel (λ e. absurd (ground arith))
      (with_kernel-Agree false) (omega arith)

none_closes : All (λ c. closes c 4 ≡ false) calls
unfolding closes
none_closes = (refl, (refl, (refl, (refl, tt))))

kernel_first : lookup 4 with_kernel.vfs_map ≡ some (kernel 1 1 4)
unfolding insert_dentry entered new_kernel_file get_or_insert stored lookup insert
kernel_first = refl

open_files_stay_example :
    lookup 4 (perform_all words files tree kinds calls with_kernel).vfs_map ≡ some (kernel 1 1 4)
open_files_stay_example =
    let e = with_kernel-next in
    open_files_stay words files tree kinds calls 4 with_kernel (kernel 1 1 4) none_closes
      (with_kernel-Agree false) (omega arith) kernel_first

found_again : FindsAgain kinds
found_again m w = (m, w, refl)

recover-Agree_example :
    ((recover kinds (crash kinds with_both)).0 ≡ ok tt)
    × Agree kinds true (state_of (recover kinds) (crash kinds with_both))
recover-Agree_example = recover-Agree kinds with_both found_again (with_both-Agree true)

recover-kernel_example :
    ((recover kinds (crash kinds with_both)).0 ≡ ok tt)
    × IsBack kinds 4 (state_of (recover kinds) (crash kinds with_both))
recover-kernel_example =
    recover-kernel kinds with_both 4 (kernel 1 1 4) found_again (with_both-Agree true) kernel_there
      refl

recover-special_example : lookup 5 (state_of (recover kinds) (crash kinds with_both)).vfs_map ≡ none
recover-special_example =
    recover-special kinds with_both 5 (epoll 5) found_again (with_both-Agree true) epoll_there refl

do_fcntl-cloexec_example :
    ((do_fcntl words files 4 2 1 with_both).0 ≡ ok 0)
    × ((do_fcntl words files 4 1 0 (state_of (do_fcntl words files 4 2 1) with_both)).0
        ≡ ok (1 % 2))
do_fcntl-cloexec_example =
    do_fcntl-cloexec words files 4 2 1 1 0 with_both (kernel 1 1 4) refl refl (λ flag x. refl)
      kernel_there

do_poll_ctl-lem_example :
    ((do_poll_ctl kinds words 5 1 3 9 with_both).0 ≡ ok tt)
    × (after : List (ℕ × ℕ)) × (lookup 5
          (state_of (do_poll_ctl kinds words 5 1 3 9) with_both).interests
        ≡ some after)
    × ((x : ℕ) → lookup x after ≡ wanted epoll_ctl_add 3 9 x (lookup x []))
    × ((other : ℕ)
        → (5 == other) ≡ false
        → lookup other (state_of (do_poll_ctl kinds words 5 1 3 9) with_both).interests
          ≡ lookup other with_both.interests)
do_poll_ctl-lem_example =
    do_poll_ctl-lem kinds words 5 1 3 9 epoll_ctl_add with_both (epoll 5) 5 [] refl epoll_there refl
      no_interest
