-- ===== src/Pexpect/Starting/Started.antt =====
-- What `_spawn` leaves, and for which reasons it fails.
use custom_shell.Prelude.{ℕ, Bool, false, List, [], ◌∷◌, ◌++◌, Bytes, Option, none, some, ◌≡◌}
use custom_shell.Python.Exec.{Exn, type_error, pexpect_error, index_error, assertion_error, ◌>>◌}
use custom_shell.Python.Exec.Triple.{Triple}
use custom_shell.Pexpect.Machine.{Spawn, Machine, self}
use custom_shell.Pexpect.CommandLine.{split_command_line}
use custom_shell.Pexpect.Which.{which}
use custom_shell.Pexpect.Starting.{
  Command, line, number, Args, listed, unlisted, Fork, refused, in_child, in_parent, ChildCall,
  Settings, child_calls, join_blanks,
}

-- The words of the command: the split line, or the command with its arguments.
abbrev pub words : Bytes → List Bytes → List Bytes
words command [] = split_command_line command
words command (a ∷ args) = command ∷ a ∷ args

abbrev with_words : List Bytes → Bytes → Machine → Machine
with_words args command m = record m {
  self = record m.self { args = args; command = some command };
}

module _ (settings : Settings) (executable : Bytes → Bool) (env_path : Option Bytes) (fork : Fork)
    (m : Machine) where
  -- Why no child was started.
  pub data Reason : Command → Args → Exn → Type 0 where
    not_a_line : (args : Args) → Reason number args pexpect_error
    not_a_list : (command : Bytes) → Reason (line command) unlisted type_error
    no_word :
        {command : Bytes} {args : List Bytes}
        → words command args ≡ []
        → Reason (line command) (listed args) index_error
    not_found :
        {command : Bytes} {args : List Bytes} (word : Bytes) (rest : List Bytes)
        → words command args ≡ word ∷ rest
        → which executable env_path word ≡ none
        → Reason (line command) (listed args) pexpect_error
    has_pid :
        {command : Bytes} {args : List Bytes} (pid : ℕ)
        → m.self.pid ≡ some pid
        → Reason (line command) (listed args) assertion_error
    no_fork :
        {command : Bytes} {args : List Bytes} (errno : ℕ)
        → fork ≡ refused errno
        → Reason (line command) (listed args) pexpect_error

  -- No child was started, and the object is as closed as before.
  abbrev pub Unstarted : Command → Args → Option Exn → Machine → Type 0
  Unstarted command args none n = ⊥
  Unstarted command args (some e) n =
      Reason command args e
      × (n.self.closed ≡ m.self.closed)
      × (n.self.terminated ≡ m.self.terminated)
      × (n.self.pid ≡ m.self.pid)
      × (n.world ≡ m.world)

  -- What the two processes do.
  abbrev pub Forked : Fork → Bytes → List Bytes → List ChildCall → Spawn → Type 0
  Forked (refused errno) path args calls s = ⊥
  Forked in_child path args calls s = calls ≡ child_calls settings path args
  Forked (in_parent pid fd) path args calls s =
      (calls ≡ [])
      × (s.pid ≡ some pid)
      × (s.child_fd ≡ some fd)
      × (s.terminated ≡ false)
      × (s.closed ≡ false)

  -- The words of the command, of which the first one was found at `path`.
  pub record IsStarted (command : Bytes) (args : List Bytes) (calls : List ChildCall) (n : Machine)
      : Type 0 where
    pub word : Bytes
    pub rest : List Bytes
    pub path : Bytes
    pub split : words command args ≡ word ∷ rest
    pub found : which executable env_path word ≡ some path
    pub command_is : n.self.command ≡ some path
    pub args_are : n.self.args ≡ path ∷ rest
    pub forked : Forked fork path (path ∷ rest) calls n.self
    pub world : n.world ≡ m.world

  module _ (command : Bytes) (args : List Bytes) where
    abbrev Fails : Option Exn → Machine → Type 0
    Fails = Unstarted (line command) (listed args)

    abbrev Worded : Bytes → Machine → Type 0
    Worded word n =
        (rest : List Bytes) × (words command args ≡ word ∷ rest)
        × (n ≡ with_words (word ∷ rest) word m)

    abbrev with_path : Bytes → List Bytes → Machine
    with_path path rest = record m {
      self = record m.self {
        command = some path;
        args = path ∷ rest;
        name = b'<' ∷ (join_blanks (path ∷ rest) ++ b'>' ∷ []);
      };
    }

    abbrev Pathed : Bytes → Machine → Type 0
    Pathed path n =
        (word : Bytes) × (rest : List Bytes) × (words command args ≡ word ∷ rest)
        × (which executable env_path word ≡ some path)
        × (n ≡ with_path path rest)

  -- What comes of a call of `_spawn`.
  abbrev pub Started : Command → Args → List ChildCall → Machine → Type 0
  Started (line command) (listed args) calls n = IsStarted command args calls n
  Started _ _ calls n = ⊥
