-- ===== src/Nodes/GuestOs.antt =====
-- pkg/cloudprovider/vsphere/types.go, GuestOSLookup: the names of guest operating systems.
use cloud_provider_vsphere.Common.{[], ◌∷◌, Text, codes, Map}

unfoldable pub guest_os_lookup : Map Text
guest_os_lookup =
    (codes "asianux3_64Guest", codes "asianux3")
    ∷ (codes "asianux3Guest", codes "asianux3")
    ∷ (codes "asianux4_64Guest", codes "asianux4")
    ∷ (codes "asianux4Guest", codes "asianux4")
    ∷ (codes "asianux5_64Guest", codes "asianux5")
    ∷ (codes "asianux7_64Guest", codes "asianux7")
    ∷ (codes "centos6_64Guest", codes "centos6")
    ∷ (codes "centos64Guest", codes "centos64")
    ∷ (codes "centos6Guest", codes "centos6")
    ∷ (codes "centos7_64Guest", codes "centos7")
    ∷ (codes "centos7Guest", codes "centos7")
    ∷ (codes "centosGuest", codes "centos")
    ∷ (codes "coreos64Guest", codes "coreos")
    ∷ (codes "darwin10_64Guest", codes "darwin")
    ∷ (codes "darwin10Guest", codes "darwin")
    ∷ (codes "darwin11_64Guest", codes "darwin")
    ∷ (codes "darwin11Guest", codes "darwin")
    ∷ (codes "darwin12_64Guest", codes "darwin")
    ∷ (codes "darwin13_64Guest", codes "darwin")
    ∷ (codes "darwin14_64Guest", codes "darwin")
    ∷ (codes "darwin15_64Guest", codes "darwin")
    ∷ (codes "darwin16_64Guest", codes "darwin")
    ∷ (codes "darwin64Guest", codes "darwin")
    ∷ (codes "darwinGuest", codes "darwin")
    ∷ (codes "debian10_64Guest", codes "debian10")
    ∷ (codes "debian10Guest", codes "debian10")
    ∷ (codes "debian4_64Guest", codes "debian4")
    ∷ (codes "debian4Guest", codes "debian4")
    ∷ (codes "debian5_64Guest", codes "debian5")
    ∷ (codes "debian5Guest", codes "debian5")
    ∷ (codes "debian6_64Guest", codes "debian6")
    ∷ (codes "debian6Guest", codes "debian6")
    ∷ (codes "debian7_64Guest", codes "debian7")
    ∷ (codes "debian7Guest", codes "debian7")
    ∷ (codes "debian8_64Guest", codes "debian8")
    ∷ (codes "debian8Guest", codes "debian8")
    ∷ (codes "debian9_64Guest", codes "debian9")
    ∷ (codes "debian9Guest", codes "debian9")
    ∷ (codes "dosGuest", codes "dos")
    ∷ (codes "eComStation2Guest", codes "eComStation2")
    ∷ (codes "eComStationGuest", codes "eComStation")
    ∷ (codes "fedora64Guest", codes "fedora")
    ∷ (codes "fedoraGuest", codes "fedora")
    ∷ (codes "freebsd64Guest", codes "freebsd")
    ∷ (codes "freebsdGuest", codes "freebsd")
    ∷ (codes "genericLinuxGuest", codes "linux")
    ∷ (codes "mandrakeGuest", codes "mandrake")
    ∷ (codes "mandriva64Guest", codes "mandriva")
    ∷ (codes "mandrivaGuest", codes "mandriva")
    ∷ (codes "netware4Guest", codes "netware4")
    ∷ (codes "netware5Guest", codes "netware5")
    ∷ (codes "netware6Guest", codes "netware6")
    ∷ (codes "nld9Guest", codes "nld9")
    ∷ (codes "oesGuest", codes "oes")
    ∷ (codes "openServer5Guest", codes "openServer5")
    ∷ (codes "openServer6Guest", codes "openServer6")
    ∷ (codes "opensuse64Guest", codes "opensuse")
    ∷ (codes "opensuseGuest", codes "opensuse")
    ∷ (codes "oracleLinux6_64Guest", codes "oracleLinux6")
    ∷ (codes "oracleLinux64Guest", codes "oracleLinux")
    ∷ (codes "oracleLinux6Guest", codes "oracleLinux6")
    ∷ (codes "oracleLinux7_64Guest", codes "oracleLinux7")
    ∷ (codes "oracleLinux7Guest", codes "oracleLinux7")
    ∷ (codes "oracleLinuxGuest", codes "oracleLinux")
    ∷ (codes "os2Guest", codes "os2")
    ∷ (codes "other24xLinux64Guest", codes "linux")
    ∷ (codes "other24xLinuxGuest", codes "linux")
    ∷ (codes "other26xLinux64Guest", codes "linux")
    ∷ (codes "other26xLinuxGuest", codes "linux")
    ∷ (codes "other3xLinux64Guest", codes "linux")
    ∷ (codes "other3xLinuxGuest", codes "linux")
    ∷ (codes "otherGuest", codes "other")
    ∷ (codes "otherGuest64", codes "other")
    ∷ (codes "otherLinux64Guest", codes "linux")
    ∷ (codes "otherLinuxGuest", codes "linux")
    ∷ (codes "redhatGuest", codes "rhel")
    ∷ (codes "rhel2Guest", codes "rhel2")
    ∷ (codes "rhel3_64Guest", codes "rhel3")
    ∷ (codes "rhel3Guest", codes "rhel3")
    ∷ (codes "rhel4_64Guest", codes "rhel4")
    ∷ (codes "rhel4Guest", codes "rhel4")
    ∷ (codes "rhel5_64Guest", codes "rhel5")
    ∷ (codes "rhel5Guest", codes "rhel5")
    ∷ (codes "rhel6_64Guest", codes "rhel6")
    ∷ (codes "rhel6Guest", codes "rhel6")
    ∷ (codes "rhel7_64Guest", codes "rhel7")
    ∷ (codes "rhel7Guest", codes "rhel7")
    ∷ (codes "sjdsGuest", codes "sjds")
    ∷ (codes "sles10_64Guest", codes "sles10")
    ∷ (codes "sles10Guest", codes "sles10")
    ∷ (codes "sles11_64Guest", codes "sles11")
    ∷ (codes "sles11Guest", codes "sles11")
    ∷ (codes "sles12_64Guest", codes "sles12")
    ∷ (codes "sles12Guest", codes "sles12")
    ∷ (codes "sles64Guest", codes "sles64")
    ∷ (codes "slesGuest", codes "sles")
    ∷ (codes "solaris10_64Guest", codes "solaris10")
    ∷ (codes "solaris10Guest", codes "solaris10")
    ∷ (codes "solaris11_64Guest", codes "solaris11")
    ∷ (codes "solaris6Guest", codes "solaris6")
    ∷ (codes "solaris7Guest", codes "solaris7")
    ∷ (codes "solaris8Guest", codes "solaris8")
    ∷ (codes "solaris9Guest", codes "solaris9")
    ∷ (codes "suse64Guest", codes "suse")
    ∷ (codes "suseGuest", codes "suse")
    ∷ (codes "turboLinux64Guest", codes "turbolinux")
    ∷ (codes "turboLinuxGuest", codes "turbolinux")
    ∷ (codes "ubuntu64Guest", codes "ubuntu")
    ∷ (codes "ubuntuGuest", codes "ubuntu")
    ∷ (codes "unixWare7Guest", codes "unixware7")
    ∷ (codes "vmkernel5Guest", codes "vmkernel5")
    ∷ (codes "vmkernel65Guest", codes "vmkernel65")
    ∷ (codes "vmkernel6Guest", codes "vmkernel6")
    ∷ (codes "vmkernelGuest", codes "vmkernel")
    ∷ (codes "vmwarePhoton64Guest", codes "photon")
    ∷ (codes "win2000AdvServGuest", codes "win2000advserv")
    ∷ (codes "win2000ProGuest", codes "win2000pro")
    ∷ (codes "win2000ServGuest", codes "win2000serv")
    ∷ (codes "win31Guest", codes "win31")
    ∷ (codes "win95Guest", codes "win95")
    ∷ (codes "win98Guest", codes "win98")
    ∷ (codes "windows7_64Guest", codes "win7")
    ∷ (codes "windows7Guest", codes "win7")
    ∷ (codes "windows7Server64Guest", codes "win7server")
    ∷ (codes "windows8_64Guest", codes "win8")
    ∷ (codes "windows8Guest", codes "win8")
    ∷ (codes "windows8Server64Guest", codes "win8server")
    ∷ (codes "windows9_64Guest", codes "win10")
    ∷ (codes "windows9Guest", codes "win10")
    ∷ (codes "windows9Server64Guest", codes "win10server")
    ∷ (codes "windowsHyperVGuest", codes "windowshyperv")
    ∷ (codes "winLonghorn64Guest", codes "winlonghorn")
    ∷ (codes "winLonghornGuest", codes "winlonghorn")
    ∷ (codes "winMeGuest", codes "winme")
    ∷ (codes "winNetBusinessGuest", codes "winnetbusiness")
    ∷ (codes "winNetDatacenter64Guest", codes "winnetdatacenter")
    ∷ (codes "winNetDatacenterGuest", codes "winnetdatacenter")
    ∷ (codes "winNetEnterprise64Guest", codes "winnetenterprise")
    ∷ (codes "winNetEnterpriseGuest", codes "winnetenterprise")
    ∷ (codes "winNetStandard64Guest", codes "winnetstandard")
    ∷ (codes "winNetStandardGuest", codes "winnetstandard")
    ∷ (codes "winNetWebGuest", codes "winnetweb")
    ∷ (codes "winNTGuest", codes "winnt")
    ∷ (codes "winVista64Guest", codes "winvista")
    ∷ (codes "winVistaGuest", codes "winvista")
    ∷ (codes "winXPHomeGuest", codes "winxphome")
    ∷ (codes "winXPPro64Guest", codes "winxppro")
    ∷ (codes "winXPProGuest", codes "winxppro")
    ∷ []
