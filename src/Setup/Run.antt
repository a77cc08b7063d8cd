-- ===== src/Setup/Run.antt =====
-- A run of `setup_run` of userspace/setup/setup.c, and what `setup_needed` says afterwards.
use aerogel.Common.{ℕ, ◌<◌, ◌≤◌, ◌≡◌, refl, ◌∙◌, arith, false, List, [], ◌∷◌, some, length, subst}
use aerogel.Common.Array.{Array}
use aerogel.Libc.Strings.{IsString}
use aerogel.Keyboard.{KeyEvent}
use aerogel.Shell.{Line, edit_loop}
use aerogel.Shell.Lines.{Reads, keys, onto, edit_loop-Reads, length-onto}
use aerogel.Vfs.{Vfs, resolve, find}
use aerogel.Vfs.Paths.{IsName, descend, resolve-join_names, resolve-root}
use aerogel.Tmpfs.{Store}
use aerogel.Tmpfs.Nodes.{tmpfs_fs}
use aerogel.Setup.{
  buf_size, etc_name, hostname_name, hostname_path, readln, setup_needed, set_hostname, make_files,
  setup_run,
}
use aerogel.Setup.Hostname.{chosen, chosen-lt, set_hostname_lem}
use aerogel.Setup.Files.{Start, Named, make_files-Named}

readln-keys :
    (events rest : List KeyEvent) (s : Line) (l : List ℕ)
    → keys buf_size events [] ≡ some (l, rest)
    → (t : Line) × (readln events s ≡ some (t, rest))
      × IsString t.buf 0 (onto l [])
      × (t.buf_len ≡ length l)
      × (length l < buf_size)
unfolding readln
readln-keys events rest s l e =
    subst (Reads buf_size (edit_loop buf_size events (record s { buf = λ _. 0; buf_len = 0 }))) e (
      edit_loop-Reads buf_size events (record s { buf = λ _. 0; buf_len = 0 }) []
        (tt, refl, omega arith))

etc-IsName : IsName etc_name
etc-IsName = record { no_slash = omega arith; nonempty = omega arith }

hostname-IsName : IsName hostname_name
hostname-IsName = record { no_slash = omega arith; nonempty = omega arith }

hostname_path-Named :
    (tail name : List ℕ) (s : Store) (r : ℕ) (v : Vfs ℕ)
    → v.root ≡ some r
    → (h : Named s r name) → resolve (tmpfs_fs s) tail hostname_path v ≡ some h.node
unfolding descend find
hostname_path-Named tail name s r v root h =
    resolve-join_names (tmpfs_fs s) tail etc_name (hostname_name ∷ []) r v root etc-IsName
      (hostname-IsName, tt) (omega arith)
    ∙ rw (h.found, h.named) refl

-- Where /etc/hostname is there the setup is not needed.
Named-not_needed :
    (tail name : List ℕ) (s : Store) (r : ℕ) (v : Vfs ℕ)
    → v.root ≡ some r
    → Named s r name
    → setup_needed tail s v ≡ false
unfolding setup_needed
Named-not_needed tail name s r v root h =
    rw (setup_needed, hostname_path-Named tail name s r v root h) refl

-- `setup_run` where its parts return
setup_run-parts :
    (fuel : ℕ) (fresh : Array ℕ) (tail : List ℕ) (hostname : Array ℕ) (line typed typed2 : Line)
    (v : Vfs ℕ) (s s' : Store) (events rest rest2 : List KeyEvent) (r : ℕ)
    → readln events line ≡ some (typed, rest)
    → resolve (tmpfs_fs s) tail (b'/' ∷ []) v ≡ some r
    → make_files fuel fresh (set_hostname typed hostname) r s ≡ some s'
    → readln rest typed ≡ some (typed2, rest2)
    → setup_run fuel fresh tail hostname line v s events
      ≡ some (set_hostname typed hostname, s', rest2)
unfolding setup_run
setup_run-parts fuel fresh tail hostname line typed typed2 v s s' events rest rest2 r q root made
      q2 =
    rw (setup_run, q, root, made, q2) refl

-- Where the events hold two lines, `setup_run` returns once the second is read: afterwards /etc/hostname is a file
-- with exactly the characters of the first line, or "aerogel" if it is empty, and the setup is not needed any
-- more. Before, the root directory may hold a directory /etc, but no /etc/hostname.
pub setup_run_lem :
    (fuel : ℕ) (fresh : Array ℕ) (tail : List ℕ) (hostname : Array ℕ) (line : Line) (v : Vfs ℕ)
    (s : Store) (events rest rest2 : List KeyEvent) (r : ℕ) (l l2 : List ℕ)
    → buf_size ≤ fuel
    → hostname 63 ≡ 0
    → v.root ≡ some r
    → Start s r
    → keys buf_size events [] ≡ some (l, rest)
    → keys buf_size rest [] ≡ some (l2, rest2)
    → (h : Array ℕ) × (s' : Store) × (setup_run fuel fresh tail hostname line v s events
        ≡ some (h, s', rest2))
      × IsString h 0 (chosen (onto l []))
      × Named s' r (chosen (onto l []))
      × (setup_needed tail s' v ≡ false)
setup_run_lem fuel fresh tail hostname line v s events rest rest2 r l l2 enough last root start e
      e2 =
    let (typed, q, str, n, lt) = readln-keys events rest line l e in
    let (typed2, q2, str2, n2, lt2) = readln-keys rest rest2 typed l2 e2 in
    let len : length (onto l []) ≡ length l = length-onto l in
    let named =
      set_hostname_lem typed hostname (onto l []) last str (omega (arith, n, len))
        (omega (arith, lt, len)) in
    let (s', made, there) =
      make_files-Named fuel fresh (set_hostname typed hostname) s r (chosen (onto l [])) start named
        (omega (arith, chosen-lt (onto l []) (omega (arith, lt, len)))) in
    (
      set_hostname typed hostname,
      s',
      setup_run-parts fuel fresh tail hostname line typed typed2 v s s' events rest rest2 r q
          (resolve-root (tmpfs_fs s) tail r v root) made q2,
      named,
      there,
      Named-not_needed tail (chosen (onto l [])) s' r v root there,
    )
