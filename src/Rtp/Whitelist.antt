-- ===== src/Rtp/Whitelist.antt =====
-- The process names that backend/core/realtime_protection.py never examines.
use graduationp.Prelude.{List, [], ◌∷◌, String}

-- `WHITELISTED_PROCESSES`
abbrev pub whitelisted_processes : List String
whitelisted_processes =
    "system" ∷ "system idle process" ∷ "registry" ∷ "smss.exe" ∷ "csrss.exe" ∷ "wininit.exe"
    ∷ "winlogon.exe" ∷ "services.exe" ∷ "lsass.exe" ∷ "lsm.exe" ∷ "svchost.exe" ∷ "dwm.exe"
    ∷ "explorer.exe" ∷ "taskhostw.exe" ∷ "runtimebroker.exe" ∷ "searchhost.exe"
    ∷ "startmenuexperiencehost.exe" ∷ "shellexperiencehost.exe" ∷ "textinputhost.exe"
    ∷ "conhost.exe" ∷ "dllhost.exe" ∷ "sihost.exe" ∷ "fontdrvhost.exe" ∷ "ctfmon.exe"
    ∷ "audiodg.exe" ∷ "spoolsv.exe" ∷ "lsaiso.exe" ∷ "wbemiprvse.exe" ∷ "searchindexer.exe"
    ∷ "searchprotocolhost.exe" ∷ "searchfilterhost.exe" ∷ "wuauclt.exe" ∷ "wudfhost.exe"
    ∷ "wufaupd.exe" ∷ "trustedinstaller.exe" ∷ "tiworker.exe" ∷ "msiexec.exe" ∷ "msiexec"
    ∷ "dism.exe" ∷ "dismhost.exe" ∷ "wermgr.exe" ∷ "werhost.exe" ∷ "werfault.exe"
    ∷ "werfaultsecure.exe" ∷ "wuauclt.exe" ∷ "mscorsvw.exe" ∷ "ngen.exe" ∷ "clrjit.dll"
    ∷ "backgroundtaskhost.exe" ∷ "applicationframehost.exe" ∷ "wwahost.exe" ∷ "browser_broker.exe"
    ∷ "lockapp.exe" ∷ "usocoreworker.exe" ∷ "mousocoreworker.exe" ∷ "regsvr32.exe" ∷ "rundll32.exe"
    ∷ "mshta.exe" ∷ "taskeng.exe" ∷ "taskhost.exe" ∷ "msmpeng.exe" ∷ "nissrv.exe"
    ∷ "securityhealthservice.exe" ∷ "securityhealthsystray.exe" ∷ "mpcmdrun.exe"
    ∷ "antimalwareserviceexecutable.exe" ∷ "mdnsresponder.exe" ∷ "clamscan.exe" ∷ "clamd.exe"
    ∷ "clamav.exe" ∷ "freshclam.exe" ∷ "mbam.exe" ∷ "mbamservice.exe" ∷ "mbamscheduler.exe"
    ∷ "mbamupdater.exe" ∷ "avp.exe" ∷ "kavsvc.exe" ∷ "avgnt.exe" ∷ "avguard.exe" ∷ "bdagent.exe"
    ∷ "egui.exe" ∷ "mbae64.exe" ∷ "code.exe" ∷ "code - insiders.exe" ∷ "devenv.exe" ∷ "msdev.exe"
    ∷ "msbuild.exe" ∷ "csc.exe" ∷ "vbc.exe" ∷ "git.exe" ∷ "git-remote-https.exe" ∷ "node.exe"
    ∷ "npm.cmd" ∷ "npx.cmd" ∷ "dotnet.exe" ∷ "nuget.exe" ∷ "pip.exe" ∷ "pip3.exe" ∷ "notepad.exe"
    ∷ "notepad++.exe" ∷ "mspaint.exe" ∷ "calc.exe" ∷ "wordpad.exe" ∷ "winword.exe" ∷ "excel.exe"
    ∷ "powerpnt.exe" ∷ "outlook.exe" ∷ "onenote.exe" ∷ "teams.exe" ∷ "vlc.exe" ∷ "wmplayer.exe"
    ∷ "mpc-hc.exe" ∷ "mpc-be.exe" ∷ "spotify.exe" ∷ "discord.exe" ∷ "7z.exe" ∷ "7zfm.exe"
    ∷ "winrar.exe" ∷ "winzip64.exe" ∷ "java.exe" ∷ "javaw.exe" ∷ "javaws.exe" ∷ "acrobat.exe"
    ∷ "acrord32.exe" ∷ "python.exe" ∷ "pythonw.exe" ∷ "python3.exe" ∷ "sentinel_gpu_worker.exe"
    ∷ "sentinel_url_detonator.exe" ∷ "sentinel_agent.exe" ∷ "sentinel.exe" ∷ []

-- `_LINUX_SKIP_PROCESSES`
abbrev pub linux_skip_processes : List String
linux_skip_processes =
    "systemd" ∷ "kthreadd" ∷ "ksoftirqd" ∷ "kworker" ∷ "rcu_gp" ∷ "rcu_par_gp" ∷ "rcu_sched"
    ∷ "migration" ∷ "cpuhp" ∷ "init" ∷ "bash" ∷ "sh" ∷ "dash" ∷ "zsh" ∷ "fish" ∷ "sshd" ∷ "cron"
    ∷ "atd" ∷ "dbus-daemon" ∷ "rsyslogd" ∷ "journald" ∷ "systemd-journald" ∷ "systemd-logind"
    ∷ "systemd-udevd" ∷ "systemd-resolved" ∷ "systemd-timesyncd" ∷ "networkd" ∷ "systemd-networkd"
    ∷ "agetty" ∷ "login" ∷ "polkitd" ∷ "accounts-daemon" ∷ "udisksd" ∷ "python" ∷ "python3"
    ∷ "python3.10" ∷ "python3.11" ∷ "python3.12" ∷ []
