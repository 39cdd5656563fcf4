-- ===== src/Scripts/GoFiles/Walk.antt =====
-- What the walks of scripts/ reach.
use go_skeleton.Base.{
  ◌≡◌, ◌↔◌, ◌⊎◌, inl, inr, true, false, Option, none, some, List, Result, ok, err, All, All-append,
  All-head_append, All-tail_append, Bool-cases,
}
use go_skeleton.Base.Text.{Bytes}
use go_skeleton.Scripts.GoFiles.{
  GoFile, Node, file, dir, Nodes, no_nodes, node, name_of, child, is_skipped, is_source, both,
  walk_node, walk_nodes, find_node, parts_of, walk_found, walk_go_files,
}

module _ (P : Bytes → GoFile → Type 0) where
  abbrev SourceOk : Bytes → Result Bytes GoFile → Type 0
  SourceOk path (err e) = true ≡ false
  SourceOk path (ok f) = P path f

  -- Every source below a node can be parsed and satisfies `P`.
  unfoldable mutual
    pub AllBelow : Bytes → Node → Type 0
    AllBelow path (file name parsed) = (is_source path ≡ false) ⊎ SourceOk path parsed
    AllBelow path (dir name nodes) = (is_skipped name ≡ true) ⊎ AllEntries path nodes

    pub AllEntries : Bytes → Nodes → Type 0
    AllEntries path no_nodes = Unit
    AllEntries path (node n ns) = AllBelow (child path (name_of n)) n × AllEntries path ns

  abbrev AllFound : Bytes → Option Node → Type 0
  AllFound path none = Unit
  AllFound path (some n) = AllBelow path n

  -- Every source below a directory of the repository, if it exists.
  unfoldable pub AllUnder : Node → Bytes → Type 0
  AllUnder root path = AllFound path (find_node (parts_of path) root)

  abbrev pub AllFiles : List (Bytes × GoFile) → Type 0
  AllFiles = All (λ (path, f). P path f)

  -- A walk without an error, of files that satisfy `P`.
  abbrev pub Walked : Result Bytes (List (Bytes × GoFile)) → Type 0
  Walked (ok fs) = AllFiles fs
  Walked (err e) = true ≡ false

  both-Walked :
      (r s : Result Bytes (List (Bytes × GoFile))) → Walked (both r s) ↔ Walked r × Walked s
  both-Walked (err e) s = (λ h. (cc, cc), λ h. cc)
  both-Walked (ok xs) (err e) = (λ h. cc, λ h. h.1)
  both-Walked (ok xs) (ok ys) =
      (λ h. (All-head_append _ xs ys h, All-tail_append _ xs ys h), λ h. All-append _ xs ys h.0 h.1)

  mutual
    unfolding walk_node walk_nodes AllBelow AllEntries

    node_checked : (path : Bytes) (n : Node) → Walked (walk_node path n) → AllBelow path n
    node_checked path (file name (ok f)) h = elim (Bool-cases (is_source path)) [
      | inl e ↦ inr (rw e at h).0
      | inr e ↦ inl e
    ]
    node_checked path (file name (err x)) h = elim (Bool-cases (is_source path)) [
      | inl e ↦ inr (rw e at h)
      | inr e ↦ inl e
    ]
    node_checked path (dir name ns) h = elim (Bool-cases (is_skipped name)) [
      | inl e ↦ inl e
      | inr e ↦ inr (nodes_checked path ns (rw e at h))
    ]

    nodes_checked : (path : Bytes) (ns : Nodes) → Walked (walk_nodes path ns) → AllEntries path ns
    nodes_checked path no_nodes h = tt
    nodes_checked path (node n ns) h =
        let (a, b) =
          (both-Walked (walk_node (child path (name_of n)) n) (walk_nodes path ns)).0 h in
        (node_checked (child path (name_of n)) n a, nodes_checked path ns b)

  mutual
    unfolding walk_node walk_nodes AllBelow AllEntries

    node_reached : (path : Bytes) (n : Node) → AllBelow path n → Walked (walk_node path n)
    node_reached path (file name parsed) (inl e) = rw e tt
    node_reached path (file name (ok f)) (inr h) = elim (Bool-cases (is_source path)) [
      | inl e ↦ rw e (h, tt)
      | inr e ↦ rw e tt
    ]
    node_reached path (file name (err x)) (inr h) = cc
    node_reached path (dir name ns) (inl e) = rw e tt
    node_reached path (dir name ns) (inr h) = elim (Bool-cases (is_skipped name)) [
      | inl e ↦ rw e tt
      | inr e ↦ rw e (nodes_reached path ns h)
    ]

    nodes_reached : (path : Bytes) (ns : Nodes) → AllEntries path ns → Walked (walk_nodes path ns)
    nodes_reached path no_nodes h = tt
    nodes_reached path (node n ns) (a, b) =
        (both-Walked (walk_node (child path (name_of n)) n) (walk_nodes path ns)).1
          (node_reached (child path (name_of n)) n a, nodes_reached path ns b)

  found_iff : (path : Bytes) (o : Option Node) → Walked (walk_found path o) ↔ AllFound path o
  found_iff path none = (λ h. tt, λ h. tt)
  found_iff path (some n) = (node_checked path n, node_reached path n)

  pub walk_iff :
      (root : Node) (path : Bytes) → Walked (walk_go_files root path) ↔ AllUnder root path
  unfolding walk_go_files AllUnder
  walk_iff root path = found_iff path (find_node (parts_of path) root)
