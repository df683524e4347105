-- ===== src/Investigate/Logs/Rules.antt =====
-- The signal rules of openqa_llm_investigate/logs.py: a pattern, and the verdict it gives.
use os_autoinst_scripts.Prelude.{◌-◌, false, ◌||◌, List, [], ◌∷◌, ◌++◌, ◌==◌, if◌then◌else◌}
use os_autoinst_scripts.Py.Str.{Str, codes}
use os_autoinst_scripts.Py.Regex.{
  Regex, Cursor, one, seq, alt, star, lazy_star, group, line_start, line_end, ahead, word_edge,
  is_word, group_of, literal, seqs, plus, optional, times, up_to, one_of, none_of,
}
use os_autoinst_scripts.Investigate.Text.Classes.{alts, space, not_space, text_end, no_space_nor}
use os_autoinst_scripts.Investigate.Text.Commands.{dot}

pub record Rule : Type 0 where
  pub pattern : Regex
  pub template : Str

-- `m.expand(template)`, where the templates have no escapes but `\1` to `\3`
unfoldable pub expand : Str → Cursor → Str
unfolding group_of
expand [] m = []
expand (c ∷ []) m = c ∷ []
expand (c ∷ d ∷ s) m =
    let later = expand (d ∷ s) m in
    let behind = expand s m in
    if c == b'\\' then group_of (d - 48) m.groups ++ behind else c ∷ later

abbrev pub rule_of : Regex → Str → Rule
rule_of pattern template = record { pattern = pattern; template = template }

abbrev pub word : Regex
word = one is_word

-- `(?:\w+://)?`
abbrev pub scheme : Regex
scheme = optional (seq (plus word) (literal (codes "://")))

-- `avc:\s+denied`
abbrev pub avc_denied : Regex
avc_denied = seqs (literal (codes "avc:") ∷ plus space ∷ literal (codes "denied") ∷ [])

-- `scon=(?:\w+:){2}(\w+)\S*[ ].*?tcon=(?:\w+:){0,2}(\w+)\S*.*?perm=(\w+)`
abbrev pub selinux_re : Regex
selinux_re =
    let part = seq (plus word) (literal (codes ":")) in
    seqs (
      literal (codes "scon=")
      ∷ times 2 part
      ∷ group 1 (plus word)
      ∷ star not_space
      ∷ literal (codes " ")
      ∷ lazy_star dot
      ∷ literal (codes "tcon=")
      ∷ up_to 2 part
      ∷ group 2 (plus word)
      ∷ star not_space
      ∷ lazy_star dot
      ∷ literal (codes "perm=")
      ∷ group 3 (plus word)
      ∷ [])

abbrev pub key_rules : List Rule
key_rules =
    rule_of
      (seqs (
        literal (codes "Permission to access '")
        ∷ scheme
        ∷ group 1 (plus (no_space_nor (codes "/'")))
        ∷ star (one (none_of (codes "'")))
        ∷ literal (codes "' denied")
        ∷ []))
      (codes "repo auth failed (\\1)")
    ∷ rule_of
        (seqs (
          literal (codes "Download (curl) error for '")
          ∷ scheme
          ∷ group 1 (plus (one (none_of (codes "/'"))))
          ∷ star (one (none_of (codes "'")))
          ∷ literal (codes "':")
          ∷ star space
          ∷ literal (codes "Error code: HTTP response: 401")
          ∷ []))
        (codes "repo auth failed (\\1)")
    ∷ rule_of (literal (codes "No enabled repos"))
        (codes "system not registered (no enabled repos)")
    ∷ rule_of
        (alts (
          literal (codes "does not exist in zone")
          ∷ seq (alt (literal (codes "REGION")) (literal (codes "ZONE")))
              (literal (codes " UNAVAILABLE"))
          ∷ literal (codes "has no resources available")
          ∷ []))
        (codes "cloud capacity or machine type unavailable")
    ∷ rule_of (literal (codes "dracut: FATAL: FIPS")) (codes "initrd FIPS integrity failure")
    ∷ rule_of (literal (codes "Synchronous Exception"))
        (codes "firmware crash (Synchronous Exception)")
    ∷ rule_of selinux_re (codes "SELinux denial (\\1 -> \\2 \\3)")
    ∷ rule_of (alt (literal (codes "SELinux policy denies")) avc_denied) (codes "SELinux denial")
    ∷ rule_of (seq (one (one_of (codes "Ee"))) (literal (codes "mergency mode")))
        (codes "boot reached emergency mode")
    ∷ rule_of
        (seqs (
          literal (codes "cloud-init")
          ∷ star dot
          ∷ alt (literal (codes "ERROR")) (literal (codes "Traceback"))
          ∷ []))
        (codes "cloud-init error")
    ∷ rule_of (seqs (line_start ∷ literal (codes "DIALOG: ") ∷ group 1 (plus dot) ∷ line_end ∷ []))
        (codes "unexpected dialog: \"\\1\"")
    ∷ rule_of (seqs (line_start ∷ literal (codes "KDUMP_OOPS: ") ∷ group 1 (plus not_space) ∷ []))
        (codes "crash kernel oops in \\1")
    ∷ []

abbrev pub generic_verdicts : List Str
generic_verdicts =
    codes "SELinux denial" ∷ codes "cloud-init error" ∷ codes "unexpected dialog" ∷ []

-- `avc:\s+denied|scon=`
abbrev pub denial_re : Regex
denial_re = alt avc_denied (literal (codes "scon="))

-- A denial up to its own permissive marker.
abbrev pub permissive_denial_re : Regex
permissive_denial_re =
    let stop = alts (
      literal (codes "permissive=")
      ∷ literal (codes "state=")
      ∷ avc_denied
      ∷ literal (codes "scon=")
      ∷ []) in
    seqs (
      denial_re
      ∷ star (seq (ahead false stop) dot)
      ∷ alt (literal (codes "permissive=1")) (literal (codes "state=permissive"))
      ∷ [])

-- `[\w.-]{1,253}`
abbrev pub host_name : Regex
host_name = let c = one (λ c. is_word c || one_of (codes ".-") c) in seq c (up_to 252 c)

-- `^\r?`
abbrev pub line_begin : Regex
line_begin = seq line_start (optional (literal (codes "\r")))

abbrev pub step_rules : List Rule
step_rules =
    rule_of
      (seqs (
        alt
          (seqs (
            literal (codes "[sudo] password for ")
            ∷ one (none_of (codes ":\r\n"))
            ∷ up_to 63 (one (none_of (codes ":\r\n")))
            ∷ []))
          (literal (codes "[sudo: authenticate] Password"))
        ∷ literal (codes ":")
        ∷ star space
        ∷ text_end
        ∷ []))
      (codes "command waited for a sudo password")
    ∷ rule_of
        (seqs (
          literal (codes "Could not resolve host")
          ∷ alts (
              seqs
                (literal (codes "name") ∷ optional (literal (codes ":")) ∷ literal (codes " ") ∷ [])
              ∷ literal (codes " name ")
              ∷ literal (codes ": ")
              ∷ [])
          ∷ group 1 host_name
          ∷ []))
        (codes "name resolution failed (\\1)")
    ∷ rule_of
        (seqs (
          word_edge
          ∷ literal (codes "lookup ")
          ∷ group 1 host_name
          ∷ optional (seqs (literal (codes " on ") ∷ not_space ∷ up_to 99 not_space ∷ []))
          ∷ literal (codes ": no such host")
          ∷ []))
        (codes "name resolution failed (\\1)")
    ∷ rule_of
        (alt (literal (codes "Temporary failure in name resolution"))
          (literal (codes "Name or service not known")))
        (codes "name resolution failed")
    ∷ rule_of
        (seqs (
          line_begin
          ∷ group 1 (seqs (literal (codes "mount.nfs") ∷ optional (literal (codes "4")) ∷ []))
          ∷ literal (codes ": ")
          ∷ group 2 (
              alts (
                literal (codes "an incorrect mount option was specified")
                ∷ literal (codes "access denied by server while mounting")
                ∷ literal (codes "requested NFS version or transport protocol is not supported")
                ∷ seq (literal (codes "Connection "))
                    (alt (literal (codes "timed out")) (literal (codes "refused")))
                ∷ []))
          ∷ []))
        (codes "mount failed (\\1: \\2)")
    ∷ rule_of
        (seqs (
          line_begin
          ∷ literal (codes "mount: ")
          ∷ optional (seqs (not_space ∷ up_to 4095 not_space ∷ literal (codes ": ") ∷ []))
          ∷ group 1 (
              alt (literal (codes "wrong fs type, bad option, bad superblock")) (
                seq (literal (codes "fsconfig system call failed"))
                  (up_to 100 (one (none_of (codes "\r\n"))))))
          ∷ []))
        (codes "mount failed (\\1)")
    ∷ []
