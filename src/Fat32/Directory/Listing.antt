-- ===== src/Fat32/Directory/Listing.antt =====
-- The files and directories that `load_dir` of kernel/fs/fat32.c finds, by what the entries on the disk are.
use aerogel.Common.{
  ℕ, min, ◌+◌, ◌*◌, ◌/◌, ◌%◌, ◌^◌, ◌<◌, ◌≤◌, ◌≡◌, refl, sym, ap, ◌∙◌, arith, Bool, true, false, not,
  ◌&&◌, ◌==◌, ltb, if◌then◌else◌, Bool-cases, inl, inr, List, [], ◌∷◌, ◌++◌, append-nil,
  append_assoc, some, length,
}
use aerogel.Common.Array.{Array}
use aerogel.Fat32.{fat_eoc, Volume, LongName, parse_83, parse_lfn}
use aerogel.Fat32.Read.Chain.{chain}
use aerogel.Fat32.Directory.{
  FatNode, directory, file, Scan, dir_entry, long_name, u16_at, u32_at, make_node, scan_entry,
  load_dir,
}
use aerogel.Fat32.Directory.Slots.{Slot, scan_all, directory_entries, whole, load_dir-scan_all}

-- The first byte of an entry is 0 where the directory ends, and 0xE5 where the entry is deleted.
abbrev pub first_byte : Slot → ℕ
first_byte (b, at) = b (at + 0)

-- the byte of the attributes: 0x0F for a part of a long name, bit 3 for the label of the volume, bit 4 for a directory
abbrev pub attributes : Slot → ℕ
attributes (b, at) = b (at + 11)

abbrev pub is_long : Slot → Bool
is_long e = not (first_byte e == 0xE5) && (attributes e == 0x0F)

-- an entry that stands for a file or a directory, other than `.` and `..`
abbrev pub is_named : Slot → Bool
is_named e =
    not (first_byte e == 0xE5)
    && not (attributes e == 0x0F)
    && not (attributes e / 2 ^ 3 % 2 == 1)
    && not (first_byte e == b'.')

-- The parts of the long name in a run of such entries, the newest first: the first twenty of the run count.
abbrev pub oldest : List Slot → List LongName
oldest [] = []
oldest ((b, at) ∷ run) =
    let rest = oldest run in if ltb (length run) 20 then long_name b at ∷ rest else rest

-- What an entry behind a run of parts of a long name stands for: its name is the long one, if there is one.
abbrev pub node_of : (run : List Slot) → Slot → FatNode
node_of run (b, at) =
    let parts = oldest run in
    let name : List ℕ = elim parts [
      | [] ↦ parse_83 (dir_entry b at)
      | l ∷ ls ↦ parse_lfn (l ∷ ls) []
    ] in
    let cluster = u16_at b (at + 20) * 2 ^ 16 + u16_at b (at + 26) in
    if b (at + 11) / 2 ^ 4 % 2 == 1
    then directory name cluster
    else file name (record { start_cluster = cluster; size = u32_at b (at + 28) })

-- The nodes of a list of entries, up to the first that is empty; `run` holds the parts of a long name that stand
-- immediately before it. A deleted entry, a label, `.` and `..` end a run.
abbrev pub listed : (run : List Slot) → List Slot → List FatNode
listed run [] = []
listed run (e ∷ entries) =
    let longer = listed (e ∷ run) entries in
    let named = node_of run e ∷ listed [] entries in
    let others = listed [] entries in
    if first_byte e == 0
    then []
    else if is_long e
    then longer
    else if is_named e
    then named
    else others

length-oldest : (run : List Slot) → length (oldest run) ≡ min (length run) 20
length-oldest [] = omega arith
length-oldest ((b, at) ∷ run) = elim (Bool-cases (ltb (length run) 20)) [
  | inl room ↦ rw room (ground (arith, room, length-oldest run))
  | inr full ↦ rw full (ground (arith, full, length-oldest run))
]

-- One more part, where there is room for it
oldest-longer :
    (b : Array ℕ) (at : ℕ) (run : List Slot)
    → (if ltb (length (oldest run)) 20 then long_name b at ∷ oldest run else oldest run)
      ≡ oldest ((b, at) ∷ run)
oldest-longer b at run =
    ap (λ k. if ltb k 20 then long_name b at ∷ oldest run else oldest run) (length-oldest run)
    ∙ elim (Bool-cases (ltb (length run) 20)) [
      | inl room ↦
          let small : ltb (min (length run) 20) 20 ≡ true = ground (arith, room) in
          rw (small, room) refl
      | inr full ↦
          let large : ltb (min (length run) 20) 20 ≡ false = ground (arith, full) in
          rw (large, full) refl
    ]

-- a state of the walk
abbrev state : List LongName → List FatNode → Scan
state lfns nodes = record { lfns = lfns; nodes = nodes }

state-if :
    (t : Bool) (l : LongName) (ls : List LongName) (nodes : List FatNode)
    → (if t then state (l ∷ ls) nodes else state ls nodes) ≡ state (if t then l ∷ ls else ls) nodes
state-if true l ls nodes = refl
state-if false l ls nodes = refl

-- The walk makes the nodes of the entries, after those that it had.
scan_all-listed :
    (entries run : List Slot) (nodes : List FatNode)
    → (scan_all entries (state (oldest run) nodes)).1.nodes ≡ nodes ++ listed run entries
unfolding scan_all scan_entry make_node
scan_all-listed [] run nodes = sym (append-nil nodes)
scan_all-listed ((b, at) ∷ entries) run nodes = elim (Bool-cases (b (at + 0) == 0)) [
  | inl empty ↦ rw empty (sym (append-nil nodes))
  | inr some_byte ↦ elim (Bool-cases (b (at + 0) == 0xE5)) [
    | inl deleted ↦ rw (some_byte, deleted) (scan_all-listed entries [] nodes)
    | inr kept ↦ elim (Bool-cases (b (at + 11) == 0x0F)) [
      | inl long ↦
          rw (some_byte, kept, long)
            (ap (λ (s : Scan). (scan_all entries s).1.nodes)
                (state-if (ltb (length (oldest run)) 20) (long_name b at) (oldest run) nodes
                  ∙ ap (λ l. state l nodes) (oldest-longer b at run))
              ∙ scan_all-listed entries ((b, at) ∷ run) nodes)
      | inr short ↦ elim (Bool-cases (b (at + 11) / 2 ^ 3 % 2 == 1)) [
        | inl label ↦ rw (some_byte, kept, short, label) (scan_all-listed entries [] nodes)
        | inr no_label ↦ elim (Bool-cases (b (at + 0) == b'.')) [
          | inl dot ↦ rw (some_byte, kept, short, no_label, dot) (scan_all-listed entries [] nodes)
          | inr named ↦
              rw (some_byte, kept, short, no_label, named)
                (scan_all-listed entries [] (nodes ++ node_of run (b, at) ∷ [])
                  ∙ append_assoc nodes (node_of run (b, at) ∷ []) (listed [] entries))
        ]
      ]
    ]
  ]
]

-- Where the function that reads sectors fills the buffer, and the chain of a directory ends behind `n`
-- clusters, `load_dir` with more fuel ends. Its nodes are those of the entries of these clusters, cluster by cluster
-- and sector by sector, up to the first that is empty: one for each entry that is not deleted, not a part of a long
-- name, no label, and neither `.` nor `..`, with the long name that stands immediately before it, if there is one.
pub load_dir_lem :
    (read_sector : ℕ → Array ℕ → Array ℕ) (disk : ℕ → Array ℕ)
    → ((lba : ℕ) (buf : Array ℕ) → read_sector lba buf ≡ disk lba)
    → (v : Volume) (fuel n cluster : ℕ) (buf : Array ℕ)
    → ((i : ℕ) → i < n → chain (whole disk) disk v cluster i < fat_eoc)
    → fat_eoc ≤ chain (whole disk) disk v cluster n
    → n < fuel
    → load_dir read_sector fuel v cluster buf
      ≡ some (listed [] (directory_entries disk v cluster 0 n))
load_dir_lem read_sector disk fills v fuel n cluster buf inside ends enough =
    load_dir-scan_all read_sector disk fills v fuel n cluster buf inside ends enough
    ∙ ap some (scan_all-listed (directory_entries disk v cluster 0 n) [] [])
